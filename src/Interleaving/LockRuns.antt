-- ===== src/Interleaving/LockRuns.antt =====
-- `lock` among other processes is a run of the steps.
use shmrpc.Prelude.{
  ℕ, ◌-◌, ◌<◌, ℤ, pos, eq_ℤ, eq_ℤ_iff, minus_one, ◌≡◌, ◌≢◌, ◌⊎◌, inl, inr, Option, refl, arith,
  Bool-cases, true, if◌then◌else◌, sym, ◌∙◌,
}
use shmrpc.Machine.State.{Shared, State, Env}
use shmrpc.Machine.Flow.{Flow, ok, err, blocks, crash, M, and_then, pure}
use shmrpc.Machine.Post.{Post, Post-weaken, SameProcess}
use shmrpc.HybridLock.Object.{is_destroyed}
use shmrpc.HybridLock.Lock.{
  OptArgs, lock, contend, acquire, spin_loop, spin_fuel, spin_of, timeout_of,
}
use shmrpc.HybridLock.Clock.{get_current_time_ms}
use shmrpc.HybridLock.Spin.{get_current_time_ms_lem, spin_loop_lem}
use shmrpc.HybridLock.Acquire.{take, woken, lock-contend}
use shmrpc.HybridLock.Refusal.{lock-marked}
use shmrpc.HybridLock.Progress.{IsReady}
use shmrpc.Interleaving.Process.{Lock, Pc, Move, idle, spin, wait, taken, marked, critical, holds}
use shmrpc.Interleaving.System.{System, Reach}
use shmrpc.Interleaving.Surrounded.{
  view, At, Surrounds, own, others-At, waiting-At, over, none_yet, Reach-Ran,
}
use shmrpc.Interleaving.Exclusion.{mutual_exclusion, holder_named}
use shmrpc.Interleaving.Waiting.{Waited, acquire-Waited}

holds-cases : (c : Pc) → (holds c ≡ 0) ⊎ (holds c ≡ 1)
holds-cases c = ground arith

-- Where a `lock` has come to when it returns, raises or sleeps.
abbrev pub Comes : (State → Type 0) → (Pc → Shared → Type 0) → Flow ℤ → Type 0
Comes Q Now (ok v t) = (v ≡ pos 0) × Q t × Now critical t.shared
Comes Q Now (err e t) = Now idle t.shared
Comes Q Now (blocks t) = Now wait t.shared
Comes Q Now (crash c t) = ⊥

Comes-bind :
    {A : Type 0} (Q : State → Type 0) (Now : Pc → Shared → Type 0) (R : A → State → Type 0)
    (r : Flow A) (k : A → M ℤ)
    → Post R (λ _ t. Now idle t.shared) r
    → ((a : A) (t : State) → R a t → Comes Q Now (k a t))
    → Comes Q Now (and_then r k)
Comes-bind Q Now R (ok a t) k h f = f a t h
Comes-bind Q Now R (err e t) k h f = h
Comes-bind Q Now R (blocks t) k h f = absurd h
Comes-bind Q Now R (crash c t) k h f = absurd h

Comes-weaken :
    (Q R : State → Type 0) (Now : Pc → Shared → Type 0) (r : Flow ℤ)
    → ((t : State) → Now critical t.shared → Q t → R t)
    → Comes Q Now r
    → Comes R Now r
Comes-weaken Q R Now (ok v t) f (e, h, a) = (e, f t a h, a)
Comes-weaken Q R Now (err e t) f a = a
Comes-weaken Q R Now (blocks t) f a = a
Comes-weaken Q R Now (crash c t) f z = z

module _ (env : Env) (n : ℕ) (pids : ℕ → ℤ) (k i p : ℕ) (around : Surrounds env n pids k i p)
    (start : System) (reached : Reach n pids start) (s₀ : State) (ready : IsReady s₀ i p) where
  abbrev Now : Pc → Shared → Type 0
  Now = At n pids k i p start

  step :
      (c c' : Pc) (sh sh' : Shared) {m : Lock}
      → Now c sh
      → Move env.getpid (view i p sh) c m c'
      → view i p sh' ≡ m
      → Now c' sh'
  step = own env n pids k i p around start reached

  gives_up : (sh : Shared) → Now wait sh → Now idle sh
  gives_up sh h = step wait idle sh sh h Move.give_up refl

  leaves : (sh : Shared) → Now spin sh → Now wait sh
  leaves sh h = step spin wait sh sh h Move.leave refl

  -- The three writes of a process whose wait has returned 0.
  takes : (w : Shared) → 0 < w.sem_value i → Now wait w → Now critical (take env i p w)
  takes w l h =
      let got = record w { sem_value = (take env i p w).sem_value } in
      let locks = record got { page_char = (take env i p w).page_char } in
      step marked critical locks (take env i p w)
        (step taken marked got locks
          (step wait taken w got h (Move.acquire {v = w.sem_value i - 1} (omega (arith, l)))
            (ground arith))
          Move.mark (ground arith))
        Move.sign (ground arith)

  woken-At : (timeout : ℤ) (s : State) → Now wait s.shared → Now wait (woken env timeout s)
  woken-At timeout s h =
      let sleeps = waiting-At env n pids k i p around start reached in
      elim (Bool-cases (eq_ℤ timeout minus_one)) [
        | inl e ↦ rw e (sleeps _ _ s.shared h)
        | inr e ↦ rw e (sleeps _ _ s.shared h)
      ]

  Waited-Comes :
      (s : State) (w : Shared) (r : Flow ℤ)
      → Now wait s.shared
      → Now wait w
      → Waited env i p s₀ s w r
      → Comes (SameProcess s₀) Now r
  Waited-Comes s w (ok v t) a b (e, h, l, f) = (e, h, rw f (takes w l b))
  Waited-Comes s w (err e t) a b (inl f) = rw f (gives_up s.shared a)
  Waited-Comes s w (err e t) a b (inr f) = rw f (gives_up w b)
  Waited-Comes s w (blocks t) a b f = rw f b
  Waited-Comes s w (crash c t) a b z = z

  acquire-Comes :
      (s : State) (timeout : ℤ)
      → SameProcess s₀ s
      → Now wait s.shared
      → Comes (SameProcess s₀) Now (acquire env timeout s)
  acquire-Comes s timeout h a =
      Waited-Comes s (woken env timeout s) (acquire env timeout s) a (woken-At timeout s a)
        (acquire-Waited env i p s₀ ready s timeout h)

  abbrev Spinning : State → Type 0
  Spinning t = SameProcess s₀ t × Now spin t.shared

  spins :
      (from_t : ℤ) (s : State)
      → Spinning s
      → Post (λ _ t. Spinning t) (λ _ t. Now idle t.shared) (spin_loop env spin_fuel from_t 0 s)
  spins from_t s h =
      Post-weaken _ _ _ _ (spin_loop env spin_fuel from_t 0 s) (λ _ _ q. q.0)
        (λ _ t q. step spin idle t.shared t.shared q.0.1 (Move.see_mark q.2) refl)
        (spin_loop_lem env (Now spin) (others-At env n pids k i p around start reached) p s₀
          ready.char spin_fuel 0 from_t s (omega arith) (omega arith) h)

  spin_or_not :
      (args : Option OptArgs) (from_t : ℤ) (s : State)
      → Spinning s
      → Post
          (λ _ t. Spinning t)
          (λ _ t. Now idle t.shared)
          ((if eq_ℤ (spin_of args) (pos 0) then pure true else spin_loop env spin_fuel from_t 0) s)
  spin_or_not args from_t s h = elim (Bool-cases (eq_ℤ (spin_of args) (pos 0))) [
    | inl blind ↦ rw blind h
    | inr spinning ↦ rw spinning (spins from_t s h)
  ]

  contend-Comes :
      (args : Option OptArgs)
      → Now spin s₀.shared
      → Comes (SameProcess s₀) Now (contend env args s₀)
  unfolding contend
  contend-Comes args h =
      Comes-bind _ Now (λ _ t. SameProcess s₀ t × (t.shared ≡ s₀.shared))
        (get_current_time_ms env s₀) _ (get_current_time_ms_lem env _ s₀)
        λ from_t t q.
          Comes-bind _ Now _ _ (λ _. acquire env (timeout_of args))
            (spin_or_not args from_t t (q.0, rw q.1 h))
            λ _ u g. acquire-Comes u (timeout_of args) g.0 (leaves u.shared g.1)

  lock-Comes :
      (args : Option OptArgs) → Now idle s₀.shared → Comes (SameProcess s₀) Now (lock env args s₀)
  lock-Comes args h = elim (Bool-cases (is_destroyed (s₀.shared.page_char p))) [
    | inl gone ↦
        rw
          (lock-marked env s₀ p (record { attached = ready.char; marked = (eq_ℤ_iff _ _).0 gone })
            args)
          h
    | inr alive ↦ rw (lock-contend env i p s₀ ready.sem ready.char ready.pid args alive) (
        contend-Comes args
          (step idle spin s₀.shared s₀.shared h (Move.enter (λ e. ground (arith, alive, e))) refl))
  ]

module _ (env : Env) (n : ℕ) (pids : ℕ → ℤ) (k i p : ℕ) (around : Surrounds env n pids k i p)
    (s : State) (ready : IsReady s i p) (pc : ℕ → Pc)
    (reached : Reach n pids (over i p s.shared pc)) (outside : pc k ≡ idle)
    (args : Option OptArgs) where
  -- Nobody else holds the lock.
  abbrev pub Alone : State → Type 0
  Alone t =
      (t.shared.sem_value i ≡ 0)
      × (t.shared.page_pid p ≡ env.getpid)
      × ((pc' : ℕ → Pc) × Reach n pids (over i p t.shared pc')
          × (pc' k ≡ critical)
          × ((j : ℕ) → j < n → j ≢ k → holds (pc' j) ≡ 0))

  behind-Alone : (t : State) → At n pids k i p (over i p s.shared pc) critical t.shared → Alone t
  behind-Alone t (pc', r, e) =
      let now = Reach-Ran reached r in
      let (z, named) = holder_named now k around.inside (rw e refl) in
      (
        z,
        named ∙ around.mine,
        (
          pc',
          now,
          e,
          λ j below other. elim (holds-cases (pc' j)) [
            | inl f ↦ f
            | inr f ↦
                absurd (other (sym (mutual_exclusion now k j around.inside below (rw e refl) f)))
          ],
        ),
      )

  -- Any call may fail, and the other processes act in the spin loop and during the sleep, by steps of
  -- their own. Started in a state that the processes can reach, with this one outside, `lock` is a run
  -- of the steps of all. If it returns, it returns 0, and the process is behind its lock: the semaphore
  -- is 0, the page holds its pid, no other process holds the lock, and the object and the descriptors
  -- are as before. If it raises, the process is outside again, and if it sleeps for ever, before its
  -- wait.
  pub lock-Ran :
      Comes
        (λ t. SameProcess s t × Alone t)
        (At n pids k i p (over i p s.shared pc))
        (lock env args s)
  lock-Ran =
      Comes-weaken (SameProcess s) _ (At n pids k i p (over i p s.shared pc)) (lock env args s)
        (λ t a h. (h, behind-Alone t a))
        (lock-Comes env n pids k i p around (over i p s.shared pc) reached s ready args
          (pc, none_yet, outside))
