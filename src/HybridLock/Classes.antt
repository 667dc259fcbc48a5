-- ===== src/HybridLock/Classes.antt =====
-- The classes of the exceptions that the methods raise, and the overwriting mode's `except` clauses on
-- them.
use shmrpc.Prelude.{ℕ, ◌==◌, Bool, Option, none, some, if◌then◌else◌, List, [], ◌∷◌, ◌≡◌, refl}
use shmrpc.Machine.State.{State}
use shmrpc.Machine.Flow.{
  Exc, M, exception, system_error, timeout_error, type_error, no_such_semaphore, semaphore_exists,
  semaphore_destroyed, pure, raise,
}
use shmrpc.HybridLock.Create.{ignore_missing}
use shmrpc.HybridLock.Except.{
  TryEnd, handled, not_handled, out_of_fuel, except_clause, try_statement,
}
use shmrpc.Runtime.ErrorState.{
  Error, ThreadState, exception_save, exception_reset, get_topmost_exception,
}
use shmrpc.Runtime.ExceptionMatches.{
  other, exception_class, Objects, given_matches, given_matches_tuple, inner_matches2, is_subtype,
  in_bases,
}

abbrev object : ℕ
object = 0

abbrev base_exception : ℕ
base_exception = 1

abbrev exception_type : ℕ
exception_type = 2

abbrev system_error_type : ℕ
system_error_type = 3

abbrev os_error : ℕ
os_error = 4

abbrev timeout_error_type : ℕ
timeout_error_type = 5

abbrev type_error_type : ℕ
type_error_type = 6

-- The module creates these with Exception as their only base.
abbrev pub no_such_semaphore_exception : ℕ
no_such_semaphore_exception = 7

abbrev pub semaphore_exists_exception : ℕ
semaphore_exists_exception = 8

abbrev pub semaphore_destroyed_exception : ℕ
semaphore_destroyed_exception = 9

abbrev pub class_of : Exc → ℕ
class_of (exception m) = exception_type
class_of (system_error m) = system_error_type
class_of timeout_error = timeout_error_type
class_of (type_error m) = type_error_type
class_of (no_such_semaphore m) = no_such_semaphore_exception
class_of (semaphore_exists m) = semaphore_exists_exception
class_of semaphore_destroyed = semaphore_destroyed_exception

-- `tp_base`
abbrev base_of : ℕ → Option ℕ
base_of c =
    if c == object
    then none
    else if c == base_exception
    then some object
    else if c == exception_type
    then some base_exception
    else if c == timeout_error_type
    then some os_error
    else some exception_type

-- `tp_mro`
abbrev mro_of : ℕ → List ℕ
mro_of c =
    if c == object
    then object ∷ []
    else if c == base_exception
    then base_exception ∷ object ∷ []
    else if c == exception_type
    then exception_type ∷ base_exception ∷ object ∷ []
    else if c == timeout_error_type
    then timeout_error_type ∷ os_error ∷ exception_type ∷ base_exception ∷ object ∷ []
    else c ∷ exception_type ∷ base_exception ∷ object ∷ []

abbrev pub classes : Objects
classes = record {
  tp_base = base_of;
  tp_mro = λ c. some (mro_of c);
  kind = λ c. if c == object then other else exception_class;
  base_object = object;
}

-- What the code behind the statement goes on with.
abbrev pub behind : TryEnd → Exc → M (Unit {0})
behind (handled t) e = pure tt
behind (not_handled t) e = raise e
behind out_of_fuel e = raise e

-- For every exception that the methods raise, with any value and traceback in any thread, the `try`
-- statement on its class does what `ignore_missing` does on the exception.
pub try_statement-ignore_missing :
    (matches : ℕ → ℕ → Bool) (py_none : ℕ) (before : ThreadState) (v tb : Option ℕ)
    (name_error : Error) (e : Exc) (s : State)
    → behind
        (try_statement classes matches py_none 0
          (some no_such_semaphore_exception)
          (some semaphore_destroyed_exception)
          name_error
          before
          (record before {
            curexc = record { type = some (class_of e); value = v; traceback = tb };
          }))
        e
        s
      ≡ ignore_missing e s
unfolding ignore_missing try_statement except_clause exception_save exception_reset
    get_topmost_exception given_matches given_matches_tuple inner_matches2 is_subtype in_bases
try_statement-ignore_missing matches py_none before v tb name_error (exception m) s = refl
try_statement-ignore_missing matches py_none before v tb name_error (system_error m) s = refl
try_statement-ignore_missing matches py_none before v tb name_error timeout_error s = refl
try_statement-ignore_missing matches py_none before v tb name_error (type_error m) s = refl
try_statement-ignore_missing matches py_none before v tb name_error (no_such_semaphore m) s = refl
try_statement-ignore_missing matches py_none before v tb name_error (semaphore_exists m) s = refl
try_statement-ignore_missing matches py_none before v tb name_error semaphore_destroyed s = refl
