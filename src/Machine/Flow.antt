-- ===== src/Machine/Flow.antt =====
-- How a function of HybridLock.c can end, and the monad that its statements are run in.
use shmrpc.Prelude.{ℕ, String}
use shmrpc.Machine.State.{State, HybridLock}

-- Python exceptions. The message stands where the code gives one.
pub data Exc : Type 0 where
  exception : String → Exc
  system_error : String → Exc
  timeout_error : Exc
  type_error : String → Exc
  no_such_semaphore : String → Exc
  semaphore_exists : String → Exc
  semaphore_destroyed : Exc

-- Undefined behaviour of C.
pub data Crash : Type 0 where
  null_semaphore : Crash
  closed_semaphore : Crash
  null_page : Crash
  invalid_string : Crash

-- `ok`: the value is returned. `err`: the Python exception is pending and the function returns its
-- error value. `blocks`: the call sleeps for ever unless another process acts.
pub data Flow (A : Type 0) : Type 0 where
  ok : A → State → Flow A
  err : Exc → State → Flow A
  blocks : State → Flow A
  crash : Crash → State → Flow A

abbrev pub M : Type 0 → Type 0
M A = State → Flow A

abbrev pub pure : {A : Type 0} → A → M A
pure a s = ok a s

abbrev pub raise : {A : Type 0} → Exc → M A
raise e s = err e s

abbrev pub and_then : {A B : Type 0} → Flow A → (A → M B) → Flow B
and_then (ok a s) k = k a s
and_then (err e s) k = err e s
and_then (blocks s) k = blocks s
and_then (crash c s) k = crash c s

infixl 5 ◌>>=◌ ◌>>◌
abbrev pub ◌>>=◌ : {A B : Type 0} → M A → (A → M B) → M B
◌>>=◌ m k s = and_then (m s) k

abbrev pub ◌>>◌ : {A B : Type 0} → M A → M B → M B
m >> k = m >>= λ _. k

-- `try: m; except …`: the handler sees each exception that `m` raises.
abbrev pub catch : {A : Type 0} → Flow A → (Exc → M A) → Flow A
catch (ok a s) h = ok a s
catch (err e s) h = h e s
catch (blocks s) h = blocks s
catch (crash c s) h = crash c s

-- The state in which a function ends or sleeps.
abbrev pub final : {A : Type 0} → Flow A → State
final (ok a s) = s
final (err e s) = s
final (blocks s) = s
final (crash c s) = s

abbrev pub get_self : M HybridLock
get_self s = ok s.self s

abbrev pub set_self : HybridLock → M (Unit {0})
set_self h s = ok tt (record s { self = h })

abbrev pub get_errno : M ℕ
get_errno s = ok s.errno s
