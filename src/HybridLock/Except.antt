-- ===== src/HybridLock/Except.antt =====
-- The `try` statement of the overwriting mode: the state of the thread before and behind it.
use shmrpc.Prelude.{ℕ, Option, none, some, Bool, true, false}
use shmrpc.Runtime.ExceptionMatches.{Objects, given_matches}
use shmrpc.Runtime.ErrorState.{
  Error, ThreadState, no_error, err_restore, err_fetch, exception_save, exception_reset,
}

-- `__pyx_L14_try_end` is reached, or the exception goes on.
pub data TryEnd : Type 0 where
  handled : ThreadState → TryEnd
  not_handled : ThreadState → TryEnd
  out_of_fuel : TryEnd

module _ (o : Objects) (py_given_exception_matches : ℕ → ℕ → Bool) (py_none fuel : ℕ) where
  -- `__Pyx_PyErr_GivenExceptionMatches(type, class)`, with the exception fetched and restored around it.
  -- The type is not NULL behind a failed call.
  abbrev matches_pending : Option ℕ → ℕ → Option Bool
  unfolding given_matches
  matches_pending none class = some false
  matches_pending (some type) class = given_matches o py_given_exception_matches fuel type class

  -- One `except` clause, whose class is a global of the module; if it is not found, the lookup leaves
  -- an exception of its own.
  unfoldable pub except_clause :
      Option ℕ → Error → Error → (ThreadState → TryEnd) → ThreadState → TryEnd
  unfolding matches_pending exception_reset
  except_clause none name_error saved next tstate =
      not_handled (exception_reset py_none saved (err_restore name_error (err_fetch tstate).1))
  except_clause (some class) name_error saved next tstate =
      let (e, fetched) = err_fetch tstate in
      elim (matches_pending e.type class) [
        | none ↦ out_of_fuel
        | some true ↦
            handled (exception_reset py_none saved (err_restore no_error (err_restore e fetched)))
        | some false ↦ next (err_restore e fetched)
      ]

  -- Behind the failed body: `before` is the state at the `try`.
  unfoldable pub try_statement : Option ℕ → Option ℕ → Error → ThreadState → ThreadState → TryEnd
  unfolding except_clause exception_save exception_reset
  try_statement no_such destroyed name_error before tstate =
      let saved = exception_save py_none before in
      except_clause no_such name_error saved
        (except_clause destroyed name_error saved
          (λ t. not_handled (exception_reset py_none saved t)))
        tstate
