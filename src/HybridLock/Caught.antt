-- ===== src/HybridLock/Caught.antt =====
-- The `try` statement of the overwriting mode catches the subclasses of the two classes that it names.
use shmrpc.Prelude.{ℕ, Option, none, some, Bool, true, false, List, ◌≡◌, ◌⊎◌, inl, inr, refl}
use shmrpc.HybridLock.Except.{
  TryEnd, handled, not_handled, out_of_fuel, except_clause, try_statement,
}
use shmrpc.Runtime.ErrorState.{
  Error, ThreadState, no_error, exception_save, exception_reset, save-reset,
}
use shmrpc.Runtime.ExceptionMatches.{Objects, exception_class, given_matches}
use shmrpc.Runtime.Subclasses.{Subclass, IsSetUp, Decides, given_matches-Decides}

module _ (py_none : ℕ) (before : ThreadState) where
  -- The thread behind a body that has raised: an exception is pending, and the handled ones are as they
  -- were at the `try`.
  abbrev pub raised : Error → ThreadState
  raised e = record before { curexc = e }

  -- `P`, `Q`: the exception is of the first class, of the second.
  abbrev pub IsCaught : (P Q : Type 0) → Error → TryEnd → Type 0
  IsCaught P Q e (handled t) =
      (P ⊎ Q) × (t.curexc ≡ no_error) × (exception_save py_none t ≡ exception_save py_none before)
  IsCaught P Q e (not_handled t) =
      (¬ P) × (¬ Q) × (t.curexc ≡ e) × (exception_save py_none t ≡ exception_save py_none before)
  IsCaught P Q e out_of_fuel = ⊥

  reset : Error → ThreadState
  reset e = exception_reset py_none (exception_save py_none before) (record before { curexc = e })

  reset_lem :
      (e : Error)
      → ((reset e).curexc ≡ e) × (exception_save py_none (reset e) ≡ exception_save py_none before)
  unfolding exception_reset reset exception_save
  reset_lem e = (refl, save-reset py_none before)

  by_results :
      (P Q : Type 0) (e : Error) (r q : Option Bool)
      → Decides r P
      → Decides q Q
      → IsCaught P Q e (elim r [
        | none ↦ out_of_fuel
        | some true ↦ handled (reset no_error)
        | some false ↦ elim q [
          | none ↦ out_of_fuel
          | some true ↦ handled (reset no_error)
          | some false ↦ not_handled (reset e)
        ]
      ])
  by_results P Q e none q d f = d
  by_results P Q e (some true) q d f = (inl d, (reset_lem no_error).0, (reset_lem no_error).1)
  by_results P Q e (some false) none d f = f
  by_results P Q e (some false) (some true) d f =
      (inr f, (reset_lem no_error).0, (reset_lem no_error).1)
  by_results P Q e (some false) (some false) d f = (d, f, (reset_lem e).0, (reset_lem e).1)

  module _ (o : Objects) (matches : ℕ → ℕ → Bool) (bases : ℕ → List ℕ) (fuel : ℕ) where
    -- The body of the `try` has raised an exception of a class that the interpreter has set up, with any
    -- value and traceback. If its class is a subclass of one of the two that the clauses name, no
    -- exception is pending behind the statement; if not, the same one is. In both cases the topmost
    -- handled exception is that from before, and the search through the classes ends.
    pub try_statement_lem :
        (a no_such destroyed : ℕ) (v tb : Option ℕ) (name_error : Error)
        → o.kind a ≡ exception_class
        → o.kind no_such ≡ exception_class
        → o.kind destroyed ≡ exception_class
        → IsSetUp o bases fuel a
        → let e : Error = record { type = some a; value = v; traceback = tb } in
          IsCaught (Subclass o bases a no_such) (Subclass o bases a destroyed) e (
            try_statement o matches py_none fuel
              (some no_such)
              (some destroyed)
              name_error
              before
              (raised e))
    unfolding try_statement except_clause reset exception_reset
    try_statement_lem a no_such destroyed v tb name_error ka kn kd ready =
        by_results (Subclass o bases a no_such) (Subclass o bases a destroyed)
          (record { type = some a; value = v; traceback = tb })
          (given_matches o matches fuel a no_such) (given_matches o matches fuel a destroyed)
          (given_matches-Decides o matches bases fuel a ka ready no_such kn)
          (given_matches-Decides o matches bases fuel a ka ready destroyed kd)
