-- ===== src/HybridLock/Unlock.antt =====
-- `unlock`.
use shmrpc.Prelude.{ℤ, pos, minus_one, eq_ℤ, if◌then◌else◌, not}
use shmrpc.Machine.State.{Env}
use shmrpc.Machine.Flow.{M, exception, semaphore_destroyed, pure, raise, ◌>>=◌, ◌>>◌, get_self}
use shmrpc.Machine.Calls.{load_char, store_char, sem_post}
use shmrpc.HybridLock.Object.{unlocked, is_destroyed}
use shmrpc.HybridLock.Value.{get_value}

module _ (env : Env) where
  -- Behind `if self.get_value() == 0`.
  unfoldable pub post : M ℤ
  unfolding sem_post
  post = do
    self ← get_self
    retval ← sem_post env self.semaphore
    if not (eq_ℤ retval (pos 0)) then raise (exception "sem_post") else pure retval

  unfoldable pub unlock : M ℤ
  unfolding load_char store_char get_value post
  unlock = do
    self ← get_self
    c ← load_char self.spin_lock_char
    if is_destroyed c then raise semaphore_destroyed else pure tt
    store_char self.spin_lock_char unlocked
    value ← get_value env
    if eq_ℤ value (pos 0) then post else pure minus_one
