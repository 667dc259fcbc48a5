-- ===== src/Interleaving/ReleaseRuns.antt =====
-- `unlock` among other processes is a run of the steps of its process.
use shmrpc.Prelude.{ℕ, ◌+◌, ◌<◌, ℤ, ◌≡◌, ◌≢◌, ◌⊎◌, inl, inr, refl, arith, ap, ◌∙◌}
use shmrpc.Machine.State.{Shared, State, Env, update}
use shmrpc.Machine.Post.{Post, Post-weaken}
use shmrpc.HybridLock.Object.{destroyed, unlocked}
use shmrpc.HybridLock.Unlock.{unlock, post}
use shmrpc.HybridLock.Value.{get_value}
use shmrpc.HybridLock.Progress.{IsReady}
use shmrpc.Interleaving.Process.{Lock, Pc, Move, idle, critical, checking, stuck}
use shmrpc.Interleaving.System.{Reach, after, run}
use shmrpc.Interleaving.Surrounded.{view, over}
use shmrpc.Interleaving.Simulation.{Moves, done, move}
use shmrpc.Interleaving.Exclusion.{holder_named}

-- The lock with its char cleared.
abbrev cleared : Lock → Lock
cleared m = record m { char = unlocked }

abbrev posted : Lock → Lock
posted m = record m { value = m.value + 1 }

-- What `unlock` leaves when it returns and when it raises.
abbrev Gave : Lock → Lock → Type 0
Gave m m' =
    (m.char ≢ destroyed)
    × (((m.value ≡ 0) × (m' ≡ record (cleared m) { value = m.value + 1 }))
        ⊎ ((m.value ≢ 0) × (m' ≡ cleared m)))

abbrev Kept : Lock → Lock → Type 0
Kept m m' = ((m.char ≡ destroyed) × (m' ≡ m)) ⊎ ((m.char ≢ destroyed) × (m' ≡ cleared m))

unlock-Gave :
    (env : Env) (i p : ℕ) (s : State)
    → IsReady s i p
    → Post
        (λ _ t. Gave (view i p s.shared) (view i p t.shared))
        (λ _ t. Kept (view i p s.shared) (view i p t.shared))
        (unlock env s)
unfolding unlock get_value post
unlock-Gave env i p s ready = ground (arith, ready)

module _ {n : ℕ} {pids : ℕ → ℤ} (k : ℕ) (inside : k < n) where
  -- Steps of one process alone lead from a state that all can reach to another.
  Reach-Moves :
      (pc : ℕ → Pc) {m m' : Lock} {c c' : Pc}
      → pc k ≡ c
      → Moves (pids k) m c m' c'
      → Reach n pids (record { lock = m; pc = pc })
      → (pc' : ℕ → Pc) × Reach n pids (record { lock = m'; pc = pc' })
        × (pc' k ≡ c')
        × ((j : ℕ) → j ≢ k → pc' j ≡ pc j)
  Reach-Moves pc e done r = (pc, r, e, λ j other. refl)
  Reach-Moves pc e (move {c' = d} mv rest) r =
      let (pc', r', e', same) =
        Reach-Moves (update pc k d) (ground arith) rest (after r (run k inside (rw e mv))) in
      (pc', r', e', λ j other. same j other ∙ ground (arith, other))

module _ (env : Env) (n : ℕ) (pids : ℕ → ℤ) (k i p : ℕ) (inside : k < n)
    (mine : pids k ≡ env.getpid) (s : State) (pc : ℕ → Pc)
    (reached : Reach n pids (over i p s.shared pc)) (behind : pc k ≡ critical) where
  abbrev before : Lock
  before = view i p s.shared

  checks :
      (m : Lock) (c : Pc)
      → before.char ≢ destroyed
      → Moves env.getpid (cleared before) checking m c
      → Moves env.getpid before critical m c
  checks m c alive rest = move (Move.unlock alive) (move Move.clear rest)

  gave : (m : Lock) → Gave before m → Moves env.getpid before critical m idle
  gave m (alive, inl (z, e)) =
      checks m idle alive
        (rw e (move (Move.see_taken (λ f. ground (arith, f)) z) (move Move.post done)))
  gave m (alive, inr (z, e)) =
      checks m idle alive (rw e (move (Move.see_free (λ f. ground (arith, f)) z) done))

  kept : (m : Lock) → Kept before m → Moves env.getpid before critical m stuck
  kept m (inl (gone, e)) = rw e (move (Move.refuse_unlock gone) done)
  kept m (inr (alive, e)) = checks m stuck alive (rw e (move Move.fail_value done))

  -- The process has come here by its own steps, from behind its `lock`, and the others are where they
  -- were.
  abbrev pub AloneTo : Pc → Shared → Type 0
  AloneTo c sh =
      Moves env.getpid before critical (view i p sh) c
      × ((pc' : ℕ → Pc) × Reach n pids (over i p sh pc')
          × (pc' k ≡ c)
          × ((j : ℕ) → j ≢ k → pc' j ≡ pc j))

  alone : (c : Pc) (sh : Shared) → Moves env.getpid before critical (view i p sh) c → AloneTo c sh
  alone c sh r = (r, Reach-Moves k inside pc behind (rw mine r) reached)

  given :
      (sh : Shared) → Gave before (view i p sh) → (sh.sem_value i ≡ 1) × (sh.page_char p ≡ unlocked)
  given sh (alive, inl (z, e)) = (ap (λ m. m.value) e ∙ rw z refl, ap (λ m. m.char) e)
  given sh (alive, inr (z, e)) = absurd (z ((holder_named reached k inside (rw behind refl)).0))

  keeps : (sh : Shared) → Kept before (view i p sh) → sh.sem_value i ≡ 0
  keeps sh (inl (gone, e)) =
      ap (λ m. m.value) e ∙ (holder_named reached k inside (rw behind refl)).0
  keeps sh (inr (alive, e)) =
      ap (λ m. m.value) e ∙ (holder_named reached k inside (rw behind refl)).0

  -- Whatever calls fail: started in a state that the processes can reach, by one of them that is behind
  -- its `lock`, `unlock` is a run of steps of this process alone, and the others stay where they are. If
  -- it returns, the process is outside, the semaphore, which was 0, is 1, and the char is UNLOCKED. If it
  -- raises, the process still holds the lock.
  pub unlock-Moves :
      IsReady s i p
      → Post
          (λ _ t.
            AloneTo idle t.shared × (t.shared.sem_value i ≡ 1) × (t.shared.page_char p ≡ unlocked))
          (λ _ t. AloneTo stuck t.shared × (t.shared.sem_value i ≡ 0))
          (unlock env s)
  unlock-Moves ready =
      Post-weaken _ _ _ _ (unlock env s)
        (λ _ t g.
          let (v, c) = given t.shared g in (alone idle t.shared (gave (view i p t.shared) g), v, c))
        (λ _ t q. (alone stuck t.shared (kept (view i p t.shared) q), keeps t.shared q))
        (unlock-Gave env i p s ready)
