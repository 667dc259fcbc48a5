-- ===== src/HybridLock/Spin.antt =====
-- The spin loop of `lock` ends, whatever the other processes and the clock do.
use shmrpc.Prelude.{
  ℕ, zero, suc, ◌+◌, ◌≤◌, ℤ, pos, ltb_ℤ, ◌-ℤ◌, ◌≡◌, some, Bool, true, Bool-cases, inl, inr, refl,
  arith,
}
use shmrpc.Machine.State.{Shared, State, Env}
use shmrpc.Machine.Flow.{Exc, semaphore_destroyed}
use shmrpc.Machine.Post.{Post, Post-bind, SameProcess}
use shmrpc.HybridLock.Object.{destroyed}
use shmrpc.HybridLock.Lock.{spin_loop, spin_round, look, Round, leave, again, spin_fuel}
use shmrpc.HybridLock.Clock.{get_current_time_ms}

-- The time is read without an exception, and nothing else changes but errno.
pub get_current_time_ms_lem :
    (env : Env) (E : Exc → State → Type 0) (s : State)
    → Post (λ _ t. SameProcess s t × (t.shared ≡ s.shared)) E (get_current_time_ms env s)
unfolding get_current_time_ms
get_current_time_ms_lem env E s = ground arith

-- `I` is a condition on the shared state that the other processes keep.
module _ (env : Env) (I : Shared → Type 0)
    (keeps : (n : ℕ) (sh : Shared) → I sh → I (env.others n sh)) (p : ℕ) (s₀ : State)
    (attached : s₀.self.spin_lock_char ≡ some p) where
  -- A step of the loop keeps the process and the condition.
  abbrev pub Kept : State → Type 0
  Kept t = SameProcess s₀ t × I t.shared

  -- The loop raises only on a page that carries the mark.
  abbrev pub SawMark : Exc → State → Type 0
  SawMark e t = Kept t × (e ≡ semaphore_destroyed) × (t.shared.page_char p ≡ destroyed)

  -- A round goes on only below the limit.
  abbrev Goes : ℕ → Round → State → Type 0
  Goes n r t = Kept t × (r ≡ again → n ≤ 8192)

  look_lem : (n : ℕ) (s : State) → Kept s → Post (Goes n) SawMark (look env n s)
  unfolding look
  look_lem n s h =
      ground (arith, keeps s.tick s.shared, keeps (s.tick + 1) (env.others s.tick s.shared))

  time-Kept : (t s : State) → Kept s → SameProcess s t × (t.shared ≡ s.shared) → Kept t
  time-Kept t s h q = (ground arith, rw q.1 h.1)

  spin_round_lem :
      (from_t : ℤ) (n : ℕ) (s : State) → Kept s → Post (Goes n) SawMark (spin_round env from_t n s)
  unfolding spin_round
  spin_round_lem from_t n s h =
      Post-bind _ _ _ (get_current_time_ms env s) _ (get_current_time_ms_lem env SawMark s)
        λ now t q. elim (Bool-cases (ltb_ℤ (pos 6) (now -ℤ from_t))) [
          | inl late ↦ rw late (time-Kept t s h q, λ e. cc)
          | inr early ↦ rw early (look_lem n t (time-Kept t s h q))
        ]

  -- The loop is left by one of its `break`s, and never by running out of rounds.
  abbrev pub Left : Bool → State → Type 0
  Left b t = Kept t × (b ≡ true)

  pub spin_loop_lem :
      (fuel n : ℕ) (from_t : ℤ) (s : State)
      → 8194 ≤ fuel + n
      → n ≤ 8193
      → Kept s
      → Post Left SawMark (spin_loop env fuel from_t n s)
  unfolding spin_loop
  spin_loop_lem zero n from_t s enough room h = absurd (omega arith)
  spin_loop_lem (suc fuel) n from_t s enough room h =
      Post-bind _ _ _ (spin_round env from_t n s) _ (spin_round_lem from_t n s h) (elim [
        | leave ↦ λ t q. (q.0, refl)
        | again ↦
            λ t q. spin_loop_lem fuel (n + 1) from_t t (omega arith) (omega (arith, q.1 refl)) q.0
      ])

  -- Whatever the clock shows and the other processes write, the spin loop of `lock` ends within its
  -- 8194 rounds: it is left by a `break`, or it raises SemaphoreDestroyedException at a moment when
  -- the page carries the mark of a destroyed lock. It does not touch the object or the descriptors.
  pub spin_loop-ends :
      (from_t : ℤ) → I s₀.shared → Post Left SawMark (spin_loop env spin_fuel from_t 0 s₀)
  spin_loop-ends from_t start =
      spin_loop_lem spin_fuel 0 from_t s₀ (omega arith) (omega arith)
        (record { self = refl; sem_refs = refl; fds = refl; next_fd = refl }, start)
