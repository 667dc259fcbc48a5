-- ===== src/Examples/LockCases.antt =====
-- The theorems on `lock`, `unlock` and the values at concrete objects.
use shmrpc.Prelude.{ℕ, ◌≤◌, pos, none, some, ◌≡◌, refl}
use shmrpc.Machine.State.{State}
use shmrpc.Machine.Flow.{system_error, ◌>>◌}
use shmrpc.Machine.Post.{Post, Returned}
use shmrpc.HybridLock.Object.{unlocked, destroyed}
use shmrpc.HybridLock.Lock.{OptArgs, lock, spin_loop, spin_fuel, timeout_of}
use shmrpc.HybridLock.Unlock.{unlock}
use shmrpc.HybridLock.Value.{get_pid_holding_lock}
use shmrpc.HybridLock.Python.{py_unlock}
use shmrpc.HybridLock.Spin.{Left, SawMark, spin_loop-ends}
use shmrpc.HybridLock.Acquire.{Taken, lock-Taken}
use shmrpc.HybridLock.Progress.{Decided, lock-Decided}
use shmrpc.HybridLock.Release.{release, py_unlock_lem}
use shmrpc.HybridLock.RoundTrip.{lock-unlock}
use shmrpc.Examples.Worlds.{calm, calm-IsQuiet, attached, attached-IsReady, unlocked-ne-destroyed}

abbrev free : State
free = attached 1 unlocked

abbrev taken : State
taken = attached 0 unlocked

spin_loop-ends_example :
    Post
      (Left calm (λ sh. sh ≡ free.shared) (λ _ _ h. h) 0 free refl)
      (SawMark calm (λ sh. sh ≡ free.shared) (λ _ _ h. h) 0 free refl)
      (spin_loop calm spin_fuel (pos 7001) 0 free)
spin_loop-ends_example =
    spin_loop-ends calm (λ sh. sh ≡ free.shared) (λ _ _ h. h) 0 free refl (pos 7001) refl

lock-Taken_example : Returned (Taken calm 0 0 free (timeout_of none)) (lock calm none free)
lock-Taken_example = lock-Taken calm 0 0 free refl refl refl none

-- A try with a timeout of two seconds on a lock that is taken.
abbrev two_seconds : OptArgs
two_seconds = record { n = 2; timeout = pos 2; spin = pos 0 }

lock-Decided_example :
    Decided calm 0 0 taken (timeout_of (some two_seconds)) (lock calm (some two_seconds) taken)
lock-Decided_example =
    lock-Decided calm calm-IsQuiet 0 0 taken (attached-IsReady 0 unlocked) (some two_seconds)
      unlocked-ne-destroyed

lock-unlock_example :
    Post (λ v t. v ≡ pos 42) (λ _ _. ⊥) ((do lock calm none; get_pid_holding_lock calm) free)
    × Post
        (λ v t.
          (v ≡ pos 0)
          × ((j : ℕ) → t.shared.sem_value j ≡ free.shared.sem_value j)
          × (t.shared.page_char 0 ≡ unlocked))
        (λ _ _. ⊥)
        ((do lock calm none; unlock calm) free)
lock-unlock_example =
    lock-unlock calm calm-IsQuiet 0 0 free (attached-IsReady 1 unlocked) refl unlocked-ne-destroyed
      none

py_unlock_lem_example :
    Post
      (λ v t. (◌≡◌ {A = ℕ} 1 0) × (v ≡ pos 0) × (t.shared ≡ release 0 0 free.shared))
      (λ e t.
        (1 ≤ 1)
        × (e ≡ system_error "returned NULL without setting an exception")
        × (t.shared ≡ release 0 0 free.shared))
      (py_unlock calm free)
py_unlock_lem_example =
    py_unlock_lem calm 0 0 free (attached-IsReady 1 unlocked) calm-IsQuiet unlocked-ne-destroyed

abbrev gone : State
gone = attached 1 destroyed
