-- ===== src/HybridLock/Destroy.antt =====
-- `destroy` and `__del__`.
use shmrpc.Prelude.{
  ℕ, String, ◌==◌, ℤ, pos, minus_one, eq_ℤ, Option, if◌then◌else◌, not, ◌&&◌, true,
}
use shmrpc.Machine.State.{enoent, Env}
use shmrpc.Machine.Flow.{
  M, exception, semaphore_destroyed, pure, raise, ◌>>=◌, ◌>>◌, get_self, get_errno,
}
use shmrpc.Machine.Calls.{
  use_string, shm_unlink, sem_unlink, free, load_char, store_char, close, sem_close,
}
use shmrpc.HybridLock.Object.{destroyed, is_destroyed, modify}

-- `if call() == -1 and _spin_lock_char[0] != DESTROYED: if errno != ENOENT: raise …`
unfoldable pub forgive : Option ℕ → String → ℤ → M (Unit {0})
unfolding load_char
forgive page message r =
    if eq_ℤ r minus_one
    then (do
      c ← load_char page
      e ← get_errno
      if not (is_destroyed c) && not (e == enoent) then raise (exception message) else pure tt)
    else pure tt

module _ (env : Env) where
  -- The two calls at the end of `destroy` and of `__del__`.
  unfoldable pub close_handles : M (Unit {0})
  close_handles = do
    self ← get_self
    r ← close env self.shm_fd
    if eq_ℤ r minus_one then raise (exception "close") else pure tt
    q ← sem_close env self.semaphore
    if eq_ℤ q minus_one then raise (exception "sem_close") else pure tt

  unfoldable pub unlink_names : M (Unit {0})
  unfolding shm_unlink sem_unlink
  unlink_names = do
    self ← get_self
    r ← use_string self.sem_loc (shm_unlink env)
    forgive self.spin_lock_char "shm_unlink" r
    q ← use_string self.sem_loc (sem_unlink env)
    forgive self.spin_lock_char "sem_unlink" q

  -- From `free(self._sem_loc)` to the end.
  unfoldable pub finish : M ℤ
  unfolding free store_char
  finish = do
    free
    self ← get_self
    store_char self.spin_lock_char destroyed
    close_handles
    pure (pos 0)

  unfoldable pub destroy : M ℤ
  destroy = do
    self ← get_self
    if self.cleaned_up then raise semaphore_destroyed else pure tt
    modify λ h. record h { cleaned_up = true }
    unlink_names
    finish

  -- The result is `0` or `None`; both are told apart by no caller.
  unfoldable pub del : M (Unit {0})
  unfolding free
  del = do
    self ← get_self
    if self.cleaned_up
        then pure tt
        else (do modify λ h. record h { cleaned_up = true }; free; close_handles)
