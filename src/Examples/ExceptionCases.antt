-- ===== src/Examples/ExceptionCases.antt =====
-- The theorems on exceptions and classes at three classes, each the only base of the next, and on raising at
-- one class.
use shmrpc.Prelude.{
  ℕ, ◌==◌, ◌-◌, leb, none, some, if◌then◌else◌, List, [], ◌∷◌, ◌≡◌, refl, arith, inr, Bool, false,
}
use shmrpc.HybridLock.Except.{try_statement}
use shmrpc.HybridLock.Caught.{IsCaught, raised, try_statement_lem}
use shmrpc.Runtime.IntFromPy.{value, type_error}
use shmrpc.Runtime.ErrorState.{Error, ThreadState, no_error}
use shmrpc.Runtime.ExceptionMatches.{Objects, tuple, exception_class}
use shmrpc.Runtime.Subclasses.{Subclass, root, derived, IsSetUp}
use shmrpc.Runtime.Metaclass.{metaclass_loop, calculate_metaclass}
use shmrpc.Runtime.Raise.{exception_instance, exception_class, other, ApiCalls, answer, error}

-- 2 is derived from 1, and 1 from 0; 3 is the tuple of 0 and 1.
abbrev line : Objects
line = record {
  tp_base = λ c. if c == 0 then none else some (c - 1);
  tp_mro = λ _. none;
  kind = λ c. if c == 3 then tuple (0 ∷ 1 ∷ []) else exception_class;
  base_object = 0;
}

abbrev bases : ℕ → List ℕ
bases c = if c == 0 then [] else (c - 1) ∷ []

two-IsSetUp : IsSetUp line bases 3 2
two-IsSetUp = inr (refl, derived refl refl (derived refl refl (root refl refl)), omega arith)

abbrev never : ℕ → ℕ → Bool
never a b = false

abbrev thread : ThreadState
thread = record {
  curexc = no_error;
  exc_info = no_error;
  previous_items = (record { type = some 2; value = none; traceback = none }) ∷ [];
}

abbrev pending : Error
pending = record { type = some 2; value = none; traceback = none }

try_statement_lem_example :
    IsCaught 99 thread
      (Subclass line bases 2 1)
      (Subclass line bases 2 0)
      pending
      (try_statement line never 99 3 (some 1) (some 0) no_error thread (raised 99 thread pending))
try_statement_lem_example =
    try_statement_lem 99 thread line never bases 3 2 1 0 none none no_error refl refl refl
      two-IsSetUp

-- A number is a subtype of those that are not above it, and every object is of the type that it is.

-- The one that is chosen, and two that are unrelated.
chosen :
    (calculate_metaclass leb (λ a. a) 9 none (5 ∷ 2 ∷ []) ≡ value 2)
    × (calculate_metaclass (λ a b. a == b) (λ a. a) 9 (some 1) (1 ∷ 2 ∷ []) ≡ type_error)
unfolding calculate_metaclass metaclass_loop
chosen = (refl, refl)

-- 0 is None, 1 an exception class, 2 an instance of it, which is also what calling it gives.
abbrev one_class : ApiCalls
one_class = record {
  py_none = 0;
  sort = λ v. if v == 1 then exception_class else if v == 2 then exception_instance else other;
  type_of = λ v. if v == 2 then 1 else 7;
  is_subclass = λ a b. answer (a == b);
  call = λ f args. if f == 1 then answer 2 else error 8;
  no_tuple = none;
  traceback_of = λ v. none;
}
