-- ===== src/HybridLock/Refusal.antt =====
-- What every method does on a lock that is marked as destroyed.
use shmrpc.Prelude.{ℕ, pos, some, ◌≡◌, refl, Option, arith}
use shmrpc.Machine.State.{State, Env}
use shmrpc.Machine.Flow.{err, ok, semaphore_destroyed}
use shmrpc.HybridLock.Object.{destroyed}
use shmrpc.HybridLock.Value.{get_destroyed, get_value, get_pid_holding_lock}
use shmrpc.HybridLock.Lock.{OptArgs, lock}
use shmrpc.HybridLock.Unlock.{unlock}

-- The object is attached to page `p`, and the page carries the mark of a destroyed lock.
pub record IsMarked (s : State) (p : ℕ) : Type 0 where
  pub attached : s.self.spin_lock_char ≡ some p
  pub marked : s.shared.page_char p ≡ destroyed

module _ (env : Env) (s : State) (p : ℕ) (m : IsMarked s p) where
  pub lock-marked : (args : Option OptArgs) → lock env args s ≡ err semaphore_destroyed s
  unfolding lock
  lock-marked args = rw m.attached (rw m.marked refl)

  unlock-marked : unlock env s ≡ err semaphore_destroyed s
  unfolding unlock
  unlock-marked = ground (arith, m.attached, m.marked)

  get_value-marked : get_value env s ≡ err semaphore_destroyed s
  unfolding get_value
  get_value-marked = ground arith

  get_pid-marked : get_pid_holding_lock env s ≡ err semaphore_destroyed s
  unfolding get_pid_holding_lock
  get_pid-marked = rw get_value-marked refl

  get_destroyed-marked : get_destroyed s ≡ ok (pos 1) s
  unfolding get_destroyed
  get_destroyed-marked = ground arith
