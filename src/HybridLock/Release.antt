-- ===== src/HybridLock/Release.antt =====
-- What `unlock`, `get_value` and `get_pid_holding_lock` do.
use shmrpc.Prelude.{ℕ, ◌+◌, ◌<◌, ◌≤◌, pos, minus_one, ◌≡◌, ◌≢◌, if◌then◌else◌, ◌==◌, arith}
use shmrpc.Machine.State.{Shared, State, update, Call, Env}
use shmrpc.Machine.Flow.{system_error, final}
use shmrpc.Machine.Post.{Post, SameProcess}
use shmrpc.HybridLock.Object.{unlocked, destroyed}
use shmrpc.HybridLock.Value.{get_value, get_pid_holding_lock}
use shmrpc.HybridLock.Unlock.{unlock}
use shmrpc.HybridLock.Python.{py_unlock}
use shmrpc.HybridLock.Progress.{IsQuiet, IsReady}

-- The char is set; the semaphore is given back only if it is taken.
abbrev pub release : ℕ → ℕ → Shared → Shared
release i p sh = record sh {
  page_char = update sh.page_char p unlocked;
  sem_value = if sh.sem_value i == 0 then update sh.sem_value i 1 else sh.sem_value;
}

module _ (env : Env) (i p : ℕ) (s : State) (ready : IsReady s i p) where
  -- Whatever calls fail, `unlock` does not raise a semaphore above 1 that was not above it.
  pub unlock-le-one : s.shared.sem_value i ≤ 1 → (final (unlock env s)).shared.sem_value i ≤ 1
  unfolding unlock
  unlock-le-one h = ground arith

  module _ (quiet : IsQuiet env) (alive : s.shared.page_char p ≢ destroyed) where
    -- On a lock that is not destroyed, if no call fails: `unlock` sets the char to UNLOCKED in any
    -- case. It returns 0 and raises the semaphore from 0 to 1 if the semaphore is 0; otherwise it
    -- leaves the semaphore alone and returns -1.
    pub unlock_lem :
        Post
          (λ v t.
            (v ≡ (if s.shared.sem_value i == 0 then pos 0 else minus_one))
            × (t.shared ≡ release i p s.shared)
            × SameProcess s t)
          (λ _ _. ⊥)
          (unlock env s)
    unfolding unlock
    unlock_lem = ground (
      arith,
      quiet.faultless s.tick Call.sem_getvalue,
      quiet.faultless (s.tick + 1) Call.sem_post,
    )

    -- Seen from Python, if no call fails and the lock is not destroyed: `unlock` returns 0 if the
    -- semaphore is 0, and otherwise, on a lock that nobody holds, raises SystemError. In both cases
    -- the char is UNLOCKED afterwards.
    pub py_unlock_lem :
        Post
          (λ v t. (s.shared.sem_value i ≡ 0) × (v ≡ pos 0) × (t.shared ≡ release i p s.shared))
          (λ e t.
            (0 < s.shared.sem_value i)
            × (e ≡ system_error "returned NULL without setting an exception")
            × (t.shared ≡ release i p s.shared))
          (py_unlock env s)
    unfolding py_unlock
    py_unlock_lem = ground (
      arith,
      quiet.faultless s.tick Call.sem_getvalue,
      quiet.faultless (s.tick + 1) Call.sem_post,
    )

    -- On a lock that is not destroyed, if no call fails, `get_value` returns the value of the
    -- semaphore, and `get_pid_holding_lock` the pid in the page if the semaphore is 0, and 0 if it is
    -- not. Neither changes anything shared.
    pub get_pid_lem :
        Post
          (λ v t. (v ≡ pos (s.shared.sem_value i)) × (t.shared ≡ s.shared))
          (λ _ _. ⊥)
          (get_value env s)
        × Post
            (λ v t.
              (v ≡ (if s.shared.sem_value i == 0 then s.shared.page_pid p else pos 0))
              × (t.shared ≡ s.shared))
            (λ _ _. ⊥)
            (get_pid_holding_lock env s)
    unfolding get_value get_pid_holding_lock
    get_pid_lem = (
      ground (arith, quiet.faultless s.tick Call.sem_getvalue),
      ground (arith, quiet.faultless s.tick Call.sem_getvalue),
    )
