-- ===== src/HybridLock/RoundTrip.antt =====
-- `lock` and `unlock` undo each other.
use shmrpc.Prelude.{ℕ, ℤ, pos, ◌≡◌, ◌≢◌, Option, arith}
use shmrpc.Machine.State.{State, Env}
use shmrpc.Machine.Flow.{Flow, ok, err, blocks, crash, ◌>>◌}
use shmrpc.Machine.Post.{Post, Returned, Post-bind, Post-weaken}
use shmrpc.HybridLock.Object.{unlocked, destroyed}
use shmrpc.HybridLock.Value.{get_pid_holding_lock}
use shmrpc.HybridLock.Lock.{OptArgs, lock, timeout_of}
use shmrpc.HybridLock.Unlock.{unlock}
use shmrpc.HybridLock.Acquire.{take, Taken, lock-Taken}
use shmrpc.HybridLock.Progress.{IsQuiet, IsReady, Decided, lock-Decided}
use shmrpc.HybridLock.Release.{unlock_lem, get_pid_lem}

module _ (env : Env) (quiet : IsQuiet env) (i p : ℕ) (s : State) (ready : IsReady s i p)
    (free : s.shared.sem_value i ≡ 1) (alive : s.shared.page_char p ≢ destroyed) where
  -- The state in which `lock` returns.
  record Held (t : State) : Type 0 where
    taken : t.shared ≡ take env i p s.shared
    usable : IsReady t i p
    unmarked : t.shared.page_char p ≢ destroyed

  -- Decided and Taken together, at the value that is returned.
  lock-Held :
      (args : Option OptArgs) → Post (λ v t. (v ≡ pos 0) × Held t) (λ _ _. ⊥) (lock env args s)
  lock-Held args =
      held (lock env args s) (lock-Decided env quiet i p s ready args alive)
        (lock-Taken env i p s ready.sem ready.char ready.pid args)
    where
      held :
          (r : Flow ℤ)
          → Decided env i p s (timeout_of args) r
          → Returned (Taken env i p s (timeout_of args)) r
          → Post (λ v t. (v ≡ pos 0) × Held t) (λ _ _. ⊥) r
      held (ok v t) d k = (
        d.0,
        record {
          taken = d.2;
          usable = ground (arith, k.2.1, ready);
          unmarked = ground (arith, d.2);
        },
      )
      held (err e t) d k = omega arith
      held (blocks t) d k = omega arith
      held (crash c t) d k = d

  -- Without faults and other processes, on a lock that is free and not destroyed: between `lock` and
  -- `unlock` the pid that `get_pid_holding_lock` returns is that of this process, and `unlock` then
  -- returns 0 with every semaphore back at its value and the char at UNLOCKED.
  pub lock-unlock :
      (args : Option OptArgs)
      → Post (λ v t. v ≡ env.getpid) (λ _ _. ⊥) ((do lock env args; get_pid_holding_lock env) s)
        × Post
            (λ v t.
              (v ≡ pos 0)
              × ((j : ℕ) → t.shared.sem_value j ≡ s.shared.sem_value j)
              × (t.shared.page_char p ≡ unlocked))
            (λ _ _. ⊥)
            ((do lock env args; unlock env) s)
  lock-unlock args = (
    Post-bind (λ v t. (v ≡ pos 0) × Held t) _ _ (lock env args s) _ (lock-Held args)
        (λ v t h.
          Post-weaken _ _ _ _ (get_pid_holding_lock env t) (λ x u q. ground (arith, q, h.1.taken))
            (λ _ _ q. q) (get_pid_lem env i p t h.1.usable quiet h.1.unmarked).1),
    Post-bind (λ v t. (v ≡ pos 0) × Held t) _ _ (lock env args s) _ (lock-Held args)
        (λ v t h.
          Post-weaken _ _ _ _ (unlock env t)
            (λ x u q. (
              ground (arith, q, h.1.taken),
              λ j. ground (arith, q, h.1.taken),
              ground (arith, q, h.1.taken),
            ))
            (λ _ _ q. q) (unlock_lem env i p t h.1.usable quiet h.1.unmarked)),
  )
