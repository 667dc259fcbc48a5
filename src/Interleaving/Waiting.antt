-- ===== src/Interleaving/Waiting.antt =====
-- How the waiting part of `lock` ends, and what it leaves of the shared state.
use shmrpc.Prelude.{
  ℕ, ◌<◌, ℤ, pos, eq_ℤ, minus_one, ◌≡◌, ◌⊎◌, inl, inr, arith, Bool-cases, true, false,
}
use shmrpc.Machine.State.{Shared, State, Env}
use shmrpc.Machine.Flow.{Flow, ok, err, blocks, crash}
use shmrpc.Machine.Post.{SameProcess}
use shmrpc.HybridLock.Lock.{acquire, wait_forever, wait_until}
use shmrpc.HybridLock.Acquire.{take, woken}
use shmrpc.HybridLock.Progress.{IsReady}

-- The ways in which the waiting part of `lock` may end in a process that has `i` and `p` open; `w` is
-- what the others have left when the wait is over.
abbrev pub Waited : Env → (i p : ℕ) → State → State → Shared → Flow ℤ → Type 0
Waited env i p s₀ s w (ok v t) =
    (v ≡ pos 0) × SameProcess s₀ t × (0 < w.sem_value i) × (t.shared ≡ take env i p w)
Waited env i p s₀ s w (err e t) = (t.shared ≡ s.shared) ⊎ (t.shared ≡ w)
Waited env i p s₀ s w (blocks t) = t.shared ≡ w
Waited env i p s₀ s w (crash c t) = ⊥

module _ (env : Env) (i p : ℕ) (s₀ : State) (ready : IsReady s₀ i p) where
  until-Waited :
      (s : State) (timeout : ℤ)
      → eq_ℤ timeout minus_one ≡ false
      → SameProcess s₀ s
      → Waited env i p s₀ s (woken env timeout s) (acquire env timeout s)
  unfolding acquire wait_until
  until-Waited s timeout later h = rw later (ground (arith, ready))

  forever-Waited :
      (s : State) (timeout : ℤ)
      → eq_ℤ timeout minus_one ≡ true
      → SameProcess s₀ s
      → Waited env i p s₀ s (woken env timeout s) (acquire env timeout s)
  unfolding acquire wait_forever
  forever-Waited s timeout never h = rw never (ground (arith, ready))

  pub acquire-Waited :
      (s : State) (timeout : ℤ)
      → SameProcess s₀ s
      → Waited env i p s₀ s (woken env timeout s) (acquire env timeout s)
  acquire-Waited s timeout h = elim (Bool-cases (eq_ℤ timeout minus_one)) [
    | inl never ↦ forever-Waited s timeout never h
    | inr later ↦ until-Waited s timeout later h
  ]
