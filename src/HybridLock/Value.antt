-- ===== src/HybridLock/Value.antt =====
-- `get_destroyed`, `get_value` and `get_pid_holding_lock`.
use shmrpc.Prelude.{ℤ, pos, minus_one, eq_ℤ, if◌then◌else◌}
use shmrpc.Machine.State.{Env}
use shmrpc.Machine.Flow.{M, exception, semaphore_destroyed, pure, raise, ◌>>=◌, ◌>>◌, get_self}
use shmrpc.Machine.Calls.{load_char, load_pid, sem_getvalue}
use shmrpc.HybridLock.Object.{is_destroyed, some_or_raise}

unfoldable pub get_destroyed : M ℤ
unfolding load_char
get_destroyed = do
  self ← get_self
  c ← load_char self.spin_lock_char
  pure (if is_destroyed c then pos 1 else pos 0)

module _ (env : Env) where
  unfoldable pub get_value : M ℤ
  unfolding load_char sem_getvalue
  get_value = do
    self ← get_self
    c ← load_char self.spin_lock_char
    if is_destroyed c then raise semaphore_destroyed else pure tt
    r ← sem_getvalue env self.semaphore
    some_or_raise r (exception "sem_getvalue")

  unfoldable pub get_pid_holding_lock : M ℤ
  unfolding load_pid
  get_pid_holding_lock = do
    value ← get_value
    self ← get_self
    if eq_ℤ value minus_one
        then pure minus_one
        else (if eq_ℤ value (pos 0) then load_pid self.spin_lock_pid else pure (pos 0))
