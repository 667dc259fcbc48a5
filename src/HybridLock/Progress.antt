-- ===== src/HybridLock/Progress.antt =====
-- What `lock` does when no call fails and no other process acts.
use shmrpc.Prelude.{
  ℕ, ◌+◌, ◌<◌, ℤ, pos, eq_ℤ, minus_one, ◌≡◌, ◌≢◌, ◌∙◌, ◌+ℤ◌, some, none, Option, Bool-cases, inl,
  inr, false, true, if◌then◌else◌, arith,
}
use shmrpc.Machine.State.{Shared, State, Call, Env}
use shmrpc.Machine.Flow.{M, Flow, ok, err, blocks, crash, timeout_error, pure, and_then}
use shmrpc.Machine.Post.{Post, Post-weaken, SameProcess}
use shmrpc.HybridLock.Object.{destroyed, is_destroyed}
use shmrpc.HybridLock.Lock.{
  OptArgs, lock, contend, acquire, wait_forever, wait_until, spin_loop, spin_fuel, spin_of,
  timeout_of,
}
use shmrpc.HybridLock.Clock.{get_current_time_ms}
use shmrpc.HybridLock.Spin.{get_current_time_ms_lem, spin_loop_lem}
use shmrpc.HybridLock.Acquire.{take, lock-contend}

-- No call fails, and the other processes leave the shared state alone.
pub record IsQuiet (env : Env) : Type 0 where
  pub faultless : (n : ℕ) (c : Call) → env.fault n c ≡ none
  pub still : (n : ℕ) (sh : Shared) → env.others n sh ≡ sh
  pub asleep : (n : ℕ) (d : Option ℤ) (sh : Shared) → env.waiting n d sh ≡ sh

-- The object is attached to semaphore `i`, which this process has open, and to page `p`.
pub record IsReady (s : State) (i p : ℕ) : Type 0 where
  pub sem : s.self.semaphore ≡ some i
  pub char : s.self.spin_lock_char ≡ some p
  pub pid : s.self.spin_lock_pid ≡ some p
  pub held : 0 < s.sem_refs i

-- The three ways in which the lock can be got or not.
abbrev pub Decided : Env → ℕ → ℕ → State → ℤ → Flow ℤ → Type 0
Decided env i p s timeout (ok v t) =
    (v ≡ pos 0) × (0 < s.shared.sem_value i) × (t.shared ≡ take env i p s.shared)
Decided env i p s timeout (err e t) =
    (e ≡ timeout_error)
    × (s.shared.sem_value i ≡ 0)
    × (eq_ℤ timeout minus_one ≡ false)
    × (t.shared ≡ s.shared)
Decided env i p s timeout (blocks t) =
    (s.shared.sem_value i ≡ 0) × (eq_ℤ timeout minus_one ≡ true) × (t.shared ≡ s.shared)
Decided env i p s timeout (crash c t) = ⊥

unmarked : (c : ℤ) → c ≢ destroyed → is_destroyed c ≡ false
unmarked c h = ground arith

module _ (env : Env) (quiet : IsQuiet env) (i p : ℕ) (s₀ : State) (ready : IsReady s₀ i p) where
  Decided-after :
      {A : Type 0} (timeout : ℤ) (Q : A → State → Type 0) (r : Flow A) (k : A → M ℤ)
      → Post Q (λ _ _. ⊥) r
      → ((a : A) (t : State) → Q a t → Decided env i p s₀ timeout (k a t))
      → Decided env i p s₀ timeout (and_then r k)
  Decided-after timeout Q (ok a t) k h f = f a t h
  Decided-after timeout Q (err e t) k h f = absurd h
  Decided-after timeout Q (blocks t) k h f = absurd h
  Decided-after timeout Q (crash c t) k h f = absurd h

  acquire_forever_quiet :
      (s : State) (timeout : ℤ)
      → eq_ℤ timeout minus_one ≡ true
      → SameProcess s₀ s
      → s.shared ≡ s₀.shared
      → Decided env i p s₀ timeout (acquire env timeout s)
  unfolding acquire wait_forever
  acquire_forever_quiet s timeout never h e = rw never (
      ground (arith, quiet.faultless s.tick Call.sem_wait, quiet.asleep (s.tick + 1) none s.shared))

  acquire_until_quiet :
      (s : State) (timeout : ℤ)
      → eq_ℤ timeout minus_one ≡ false
      → SameProcess s₀ s
      → s.shared ≡ s₀.shared
      → Decided env i p s₀ timeout (acquire env timeout s)
  unfolding acquire wait_until
  acquire_until_quiet s timeout later h e = rw later (
      ground (
        arith,
        quiet.faultless s.tick Call.clock_gettime,
        quiet.faultless (s.tick + 1) Call.sem_timedwait,
        quiet.asleep (s.tick + 1 + 1) (some (pos (env.clock (s.tick + 1)).tv_sec +ℤ timeout))
            s.shared,
      ))

  acquire_quiet :
      (s : State) (timeout : ℤ)
      → SameProcess s₀ s
      → s.shared ≡ s₀.shared
      → Decided env i p s₀ timeout (acquire env timeout s)
  acquire_quiet s timeout h e = elim (Bool-cases (eq_ℤ timeout minus_one)) [
    | inl never ↦ acquire_forever_quiet s timeout never h e
    | inr later ↦ acquire_until_quiet s timeout later h e
  ]

  -- The loop leaves the shared state alone, so it sees no mark.
  spin_quiet :
      (args : Option OptArgs) (from_t : ℤ) (s : State)
      → is_destroyed (s₀.shared.page_char p) ≡ false
      → SameProcess s₀ s
      → s.shared ≡ s₀.shared
      → Post
          (λ _ t. SameProcess s₀ t × (t.shared ≡ s₀.shared))
          (λ _ _. ⊥)
          ((if eq_ℤ (spin_of args) (pos 0) then pure true else spin_loop env spin_fuel from_t 0) s)
  spin_quiet args from_t s alive h e = elim (Bool-cases (eq_ℤ (spin_of args) (pos 0))) [
    | inl blind ↦ rw blind (h, e)
    | inr spins ↦ rw spins (
        Post-weaken _ _ _ _ (spin_loop env spin_fuel from_t 0 s) (λ _ _ q. q.0)
          (λ x t q. ground (arith, q))
          (spin_loop_lem env (λ sh. sh ≡ s₀.shared) (λ n sh k. quiet.still n sh ∙ k) p s₀ ready.char
            spin_fuel 0 from_t s (omega arith) (omega arith) (h, e)))
  ]

  contend_quiet :
      (args : Option OptArgs)
      → is_destroyed (s₀.shared.page_char p) ≡ false
      → Decided env i p s₀ (timeout_of args) (contend env args s₀)
  unfolding contend
  contend_quiet args alive =
      Decided-after (timeout_of args) (λ _ t. SameProcess s₀ t × (t.shared ≡ s₀.shared))
        (get_current_time_ms env s₀) _ (get_current_time_ms_lem env (λ _ _. ⊥) s₀)
        λ from_t t q.
          Decided-after (timeout_of args) (λ _ t. SameProcess s₀ t × (t.shared ≡ s₀.shared)) _
            (λ _. acquire env (timeout_of args)) (spin_quiet args from_t t alive q.0 q.1)
            λ _ u r. acquire_quiet u (timeout_of args) r.0 r.1

  -- If no call fails and no other process acts, then `lock` on a lock that is not destroyed takes the
  -- semaphore and returns 0 exactly if the semaphore is not 0. If it is 0, `lock` sleeps for ever
  -- with the timeout -1, and raises TimeoutError with any other; both leave the shared state alone.
  pub lock-Decided :
      (args : Option OptArgs)
      → s₀.shared.page_char p ≢ destroyed
      → Decided env i p s₀ (timeout_of args) (lock env args s₀)
  lock-Decided args alive =
      rw (lock-contend env i p s₀ ready.sem ready.char ready.pid args (unmarked _ alive))
        (contend_quiet args (unmarked _ alive))
