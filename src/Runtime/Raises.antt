-- ===== src/Runtime/Raises.antt =====
-- What is pending behind `__Pyx_Raise`.
use shmrpc.Prelude.{ℕ, Option, none, some, ◌≡◌}
use shmrpc.Runtime.Raise.{exception_instance, Attempt, got, type_error, ApiCalls}
use shmrpc.Runtime.Misuse.{Asked, IsForeign}

module _ (api : ApiCalls) where
  open api use {py_none, sort, type_of, is_subclass, call, traceback_of}

  -- A class and a value of it that are raised.
  abbrev pub Fits : ℕ → Option ℕ → ℕ × ℕ → Type 0
  Fits type value p = Asked api type value p.0 p.1 × (sort p.1 ≡ exception_instance)

  abbrev as_exception : ℕ → ℕ → Attempt (ℕ × ℕ)
  as_exception type v = elim (sort v) [
    | exception_instance ↦ got (type, v)
    | _ ↦ type_error "calling %R should have returned an instance of BaseException, not %R"
  ]

  abbrev Found : ℕ → Option ℕ → Option (ℕ × ℕ) → Type 0
  Found type value none = IsForeign api type value
  Found type value (some p) = Fits type value p
