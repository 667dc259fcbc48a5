-- ===== src/Runtime/ErrorState.antt =====
-- The exceptions of a thread: the pending one, `curexc_type` and the two fields behind it, and the stack
-- of those that are being handled. NULL is `none`.
use shmrpc.Prelude.{
  ℕ, ◌==◌, Option, none, some, Bool, true, false, List, [], ◌∷◌, ◌≡◌, refl, ap, Bool-cases, inl,
  inr,
}

pub record Error : Type 0 where
  pub type : Option ℕ
  pub value : Option ℕ
  pub traceback : Option ℕ

-- `exc_info`, and the items that `previous_item` leads to.
pub record ThreadState : Type 0 where
  pub curexc : Error
  pub exc_info : Error
  pub previous_items : List Error

abbrev pub no_error : Error
no_error = record { type = none; value = none; traceback = none }

-- `__Pyx_ErrRestoreInState` and `__Pyx_ErrFetchInState`
abbrev pub err_restore : Error → ThreadState → ThreadState
err_restore e tstate = record tstate { curexc = e }

abbrev pub err_fetch : ThreadState → Error × ThreadState
err_fetch tstate = (tstate.curexc, record tstate { curexc = no_error })

-- `py_none` is `Py_None`.
module _ (py_none : ℕ) where
  abbrev pub is_empty : Error → Bool
  is_empty e = elim e.type [ none ↦ true | some t ↦ t == py_none ]

  -- `__Pyx_PyErr_GetTopmostException`
  unfoldable pub get_topmost_exception : Error → List Error → Error
  get_topmost_exception exc_info [] = exc_info
  get_topmost_exception exc_info (previous ∷ items) = elim (is_empty exc_info) [
    | true ↦ get_topmost_exception previous items
    | false ↦ exc_info
  ]

  -- `__Pyx__ExceptionSave`
  unfoldable pub exception_save : ThreadState → Error
  unfolding get_topmost_exception
  exception_save tstate = get_topmost_exception tstate.exc_info tstate.previous_items

  -- `__Pyx__ExceptionReset`
  unfoldable pub exception_reset : Error → ThreadState → ThreadState
  exception_reset e tstate = record tstate { exc_info = e }

  topmost-full :
      (e : Error) (items : List Error) → is_empty e ≡ false → get_topmost_exception e items ≡ e
  unfolding get_topmost_exception
  topmost-full e [] h = refl
  topmost-full e (p ∷ items) h = rw (h, get_topmost_exception) refl

  topmost-empty :
      (e p : Error) (items : List Error)
      → is_empty e ≡ true
      → get_topmost_exception e (p ∷ items) ≡ get_topmost_exception p items
  unfolding get_topmost_exception
  topmost-empty e p items h = rw (h, get_topmost_exception) refl

  topmost_again :
      (e : Error) (items : List Error)
      → get_topmost_exception (get_topmost_exception e items) items ≡ get_topmost_exception e items
  unfolding get_topmost_exception
  topmost_again e [] = refl
  topmost_again e (p ∷ items) = elim (Bool-cases (is_empty e)) [
    | inl h ↦
        let x = get_topmost_exception p items in
        rw (topmost-empty e p items h) (elim (Bool-cases (is_empty x)) [
          | inl k ↦ topmost-empty x p items k
          | inr k ↦ topmost-full x (p ∷ items) k
        ])
    | inr h ↦ ap (λ f. get_topmost_exception f (p ∷ items)) (topmost-full e (p ∷ items) h)
  ]

  -- After a reset to what was saved, the topmost handled exception, which `sys.exc_info()` shows, is the
  -- one that it was when it was saved.
  pub save-reset :
      (tstate : ThreadState)
      → exception_save (exception_reset (exception_save tstate) tstate) ≡ exception_save tstate
  unfolding exception_save exception_reset
  save-reset tstate = topmost_again tstate.exc_info tstate.previous_items
