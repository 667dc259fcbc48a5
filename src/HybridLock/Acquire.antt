-- ===== src/HybridLock/Acquire.antt =====
-- What a `lock` that returns has done.
use shmrpc.Prelude.{
  ℕ, ◌+◌, ◌-◌, ◌<◌, ℤ, pos, eq_ℤ, minus_one, ◌+ℤ◌, ◌≡◌, some, none, Option, Bool-cases, inl, inr,
  false, true, eq_ℤ_iff, if◌then◌else◌, arith,
}
use shmrpc.Machine.State.{Shared, State, update, Env}
use shmrpc.Machine.Post.{SameProcess, Returned, Returned-bind, Returned-weaken, Post→Returned}
use shmrpc.HybridLock.Object.{locked, is_destroyed}
use shmrpc.HybridLock.Lock.{
  OptArgs, lock, contend, acquire, wait_forever, wait_until, spin_loop, spin_fuel, spin_of,
  timeout_of,
}
use shmrpc.HybridLock.Clock.{get_current_time_ms}
use shmrpc.HybridLock.Refusal.{lock-marked}
use shmrpc.Machine.Flow.{pure}
use shmrpc.HybridLock.Spin.{get_current_time_ms_lem, spin_loop_lem}

-- Semaphore `i` and page `p` after a process has taken the lock in the state `w`.
abbrev pub take : Env → ℕ → ℕ → Shared → Shared
take env i p w = record w {
  sem_value = update w.sem_value i (w.sem_value i - 1);
  page_char = update w.page_char p locked;
  page_pid = update w.page_pid p env.getpid;
}

-- What the other processes have left when the wait of `acquire` in the state `s` is over.
abbrev pub woken : Env → ℤ → State → Shared
woken env timeout s =
    if eq_ℤ timeout minus_one
    then env.waiting (s.tick + 1) none s.shared
    else env.waiting (s.tick + 1 + 1) (some (pos (env.clock (s.tick + 1)).tv_sec +ℤ timeout))
        s.shared

-- The lock was taken from the state `w`, in which the semaphore was free.
abbrev pub TakenFrom : Env → ℕ → ℕ → State → Shared → ℤ → State → Type 0
TakenFrom env i p s w v t =
    (v ≡ pos 0) × SameProcess s t × (0 < w.sem_value i) × (t.shared ≡ take env i p w)

abbrev pub Taken : Env → ℕ → ℕ → State → ℤ → ℤ → State → Type 0
Taken env i p s timeout v t =
    (u : State) × SameProcess s u × TakenFrom env i p s (woken env timeout u) v t

module _ (env : Env) (i p : ℕ) (s₀ : State) (sem : s₀.self.semaphore ≡ some i)
    (attached : s₀.self.spin_lock_char ≡ some p) (pid : s₀.self.spin_lock_pid ≡ some p) where
  acquire-until :
      (s : State) (timeout : ℤ)
      → eq_ℤ timeout minus_one ≡ false
      → SameProcess s₀ s
      → Returned (TakenFrom env i p s₀ (woken env timeout s)) (acquire env timeout s)
  unfolding acquire wait_until
  acquire-until s timeout later h = rw later (ground arith)

  acquire-forever :
      (s : State) (timeout : ℤ)
      → eq_ℤ timeout minus_one ≡ true
      → SameProcess s₀ s
      → Returned (TakenFrom env i p s₀ (woken env timeout s)) (acquire env timeout s)
  unfolding acquire wait_forever
  acquire-forever s timeout never h = rw never (ground arith)

  acquire_lem :
      (s : State) (timeout : ℤ)
      → SameProcess s₀ s
      → Returned (TakenFrom env i p s₀ (woken env timeout s)) (acquire env timeout s)
  acquire_lem s timeout h = elim (Bool-cases (eq_ℤ timeout minus_one)) [
    | inl never ↦ acquire-forever s timeout never h
    | inr later ↦ acquire-until s timeout later h
  ]

  spin_or_not :
      (args : Option OptArgs) (from_t : ℤ) (s : State)
      → SameProcess s₀ s
      → Returned
          (λ _ t. SameProcess s₀ t)
          ((if eq_ℤ (spin_of args) (pos 0) then pure true else spin_loop env spin_fuel from_t 0) s)
  spin_or_not args from_t s h = elim (Bool-cases (eq_ℤ (spin_of args) (pos 0))) [
    | inl blind ↦ rw blind h
    | inr spins ↦ rw spins (
        Returned-weaken _ _ (spin_loop env spin_fuel from_t 0 s) (λ _ _ q. q.0.0)
          (Post→Returned _ _ (spin_loop env spin_fuel from_t 0 s) (
            spin_loop_lem env (λ _. Unit) (λ _ _ _. tt) p s₀ attached spin_fuel 0 from_t s
              (omega arith) (omega arith) (h, tt))))
  ]

  contend_lem :
      (args : Option OptArgs) → Returned (Taken env i p s₀ (timeout_of args)) (contend env args s₀)
  unfolding contend
  contend_lem args =
      Returned-bind (λ _ t. SameProcess s₀ t × (t.shared ≡ s₀.shared)) _
        (get_current_time_ms env s₀) _
        (Post→Returned {A = ℤ} _ _ (get_current_time_ms env s₀)
          (get_current_time_ms_lem env (λ _ _. ⊥) s₀))
        λ from_t t q.
          Returned-bind _ _ _ (λ _. acquire env (timeout_of args)) (spin_or_not args from_t t q.0)
            λ _ u h.
              Returned-weaken _ _ (acquire env (timeout_of args) u) (λ _ _ k. (u, h, k))
                (acquire_lem u (timeout_of args) h)

  pub lock-contend :
      (args : Option OptArgs)
      → is_destroyed (s₀.shared.page_char p) ≡ false
      → lock env args s₀ ≡ contend env args s₀
  unfolding lock
  lock-contend args alive = ground arith

  -- A `lock` that returns has returned 0. It took the semaphore, which was free, set the char to
  -- LOCKED and the pid to that of this process, in one state that the other processes had left when
  -- the wait was over; the wait had no deadline if the timeout is -1, and ended otherwise `timeout`
  -- seconds behind the clock. The object and the descriptors of the process are as before.
  pub lock-Taken :
      (args : Option OptArgs) → Returned (Taken env i p s₀ (timeout_of args)) (lock env args s₀)
  lock-Taken args = elim (Bool-cases (is_destroyed (s₀.shared.page_char p))) [
    | inl gone ↦
        rw
          (lock-marked env s₀ p (record { attached = attached; marked = (eq_ℤ_iff _ _).0 gone })
            args)
          tt
    | inr alive ↦ rw (lock-contend args alive) (contend_lem args)
  ]
