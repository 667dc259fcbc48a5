-- ===== src/Interleaving/Simulation.antt =====
-- The functions of HybridLock.antt run by themselves are runs of the steps.
use shmrpc.Prelude.{ℕ, String, ◌+◌, ◌-◌, ◌==◌, ℤ, ◌≡◌, ◌≢◌, Option, arith, inl, inr, Bool-cases}
use shmrpc.Machine.State.{State, Env}
use shmrpc.Machine.Flow.{Flow, ok, err, blocks, crash}
use shmrpc.Machine.Post.{Post, Post-weaken}
use shmrpc.HybridLock.Object.{destroyed, locked, unlocked}
use shmrpc.HybridLock.Lock.{OptArgs, lock, timeout_of}
use shmrpc.HybridLock.Unlock.{unlock}
use shmrpc.HybridLock.Acquire.{take}
use shmrpc.HybridLock.Release.{release, unlock_lem}
use shmrpc.HybridLock.Destroy.{destroy}
use shmrpc.HybridLock.Cleanup.{IsOpen, destroy_lem}
use shmrpc.HybridLock.Progress.{IsQuiet, IsReady, Decided, lock-Decided}
use shmrpc.Interleaving.Surrounded.{view}
use shmrpc.Interleaving.Process.{Lock, Pc, idle, critical, wait, Move}

-- Any number of steps of one process.
pub data Moves (me : ℤ) : Lock → Pc → Lock → Pc → Type 0 where
  done : {m : Lock} {c : Pc} → Moves me m c m c
  move :
      {m m' m'' : Lock} {c c' c'' : Pc}
      → Move me m c m' c'
      → Moves me m' c' m'' c''
      → Moves me m c m'' c''

-- A lock that returns has come to hold it, one that raises is outside again, and one that sleeps is
-- before its wait.
abbrev pub LockMoves : Env → (i p : ℕ) → State → Flow ℤ → Type 0
LockMoves env i p s (ok v t) =
    Moves env.getpid (view i p s.shared) idle (view i p t.shared) critical
LockMoves env i p s (err e t) = Moves env.getpid (view i p s.shared) idle (view i p t.shared) idle
LockMoves env i p s (blocks t) = Moves env.getpid (view i p s.shared) idle (view i p t.shared) wait
LockMoves env i p s (crash c t) = ⊥

module _ (env : Env) (quiet : IsQuiet env) (i p : ℕ) (s : State) (ready : IsReady s i p)
    (alive : s.shared.page_char p ≢ destroyed) where
  abbrev me : ℤ
  me = env.getpid

  view-take :
      view i p (take env i p s.shared)
      ≡ record { value = s.shared.sem_value i - 1; char = locked; pid = me }
  view-take = ground arith

  Decided-LockMoves :
      (timeout : ℤ) (r : Flow ℤ) → Decided env i p s timeout r → LockMoves env i p s r
  Decided-LockMoves timeout (ok v t) (_, positive, e) =
      rw (e, view-take)
        (move (Move.enter alive) (
          move Move.leave (
            move (Move.acquire {v = s.shared.sem_value i - 1} (omega (arith, positive)))
              (move Move.mark (move Move.sign done)))))
  Decided-LockMoves timeout (err x t) (_, _, _, e) =
      rw e (move (Move.enter alive) (move Move.leave (move Move.give_up done)))
  Decided-LockMoves timeout (blocks t) (_, _, e) =
      rw e (move (Move.enter alive) (move Move.leave done))
  Decided-LockMoves timeout (crash c t) d = d

  view-release-taken :
      s.shared.sem_value i ≡ 0
      → view i p (release i p s.shared)
        ≡ record { value = s.shared.sem_value i + 1; char = unlocked; pid = s.shared.page_pid p }
  view-release-taken z = ground (arith, z)

  view-release-free :
      s.shared.sem_value i ≢ 0
      → view i p (release i p s.shared)
        ≡ record { value = s.shared.sem_value i; char = unlocked; pid = s.shared.page_pid p }
  view-release-free z = ground (arith, z)

  released : Moves me (view i p s.shared) critical (view i p (release i p s.shared)) idle
  released = elim (Bool-cases (s.shared.sem_value i == 0)) [
    | inl a ↦
        let z : s.shared.sem_value i ≡ 0 = ground (arith, a) in
        rw (view-release-taken z) (
          move (Move.unlock alive)
            (move Move.clear (move (Move.see_taken (λ e. ground arith) z) (move Move.post done))))
    | inr a ↦
        let z : s.shared.sem_value i ≢ 0 = ground (arith, a) in
        rw (view-release-free z) (
          move (Move.unlock alive)
            (move Move.clear (move (Move.see_free (λ e. ground arith) z) done)))
  ]

  -- If no call fails and no other process acts, then on a lock that is not destroyed `lock` is a run of
  -- the steps of Process: from outside to holding the lock if it returns, back to outside if it
  -- raises, and to the wait if it sleeps. `unlock` is a run from holding the lock to outside.
  pub lock-Moves :
      (args : Option OptArgs)
      → LockMoves env i p s (lock env args s)
        × Post
            (λ v t. Moves me (view i p s.shared) critical (view i p t.shared) idle)
            (λ _ _. ⊥)
            (unlock env s)
  lock-Moves args = (
    Decided-LockMoves (timeout_of args) (lock env args s)
        (lock-Decided env quiet i p s ready args alive),
    Post-weaken _ _ _ _ (unlock env s) (λ v t q. rw q.1 released) (λ _ _ z. z)
        (unlock_lem env i p s ready quiet alive),
  )

-- If no call fails and no other process acts, `destroy` of an open object is a run of the steps of a
-- process that does not hold the lock.
pub destroy-Moves :
    (env : Env) (quiet : IsQuiet env) (s : State) (n : String) (i p fd : ℕ)
    → IsOpen s n i p fd
    → Post
        (λ v t. Moves env.getpid (view i p s.shared) idle (view i p t.shared) idle)
        (λ _ _. ⊥)
        (destroy env s)
destroy-Moves env quiet s n i p fd o =
    Post-weaken _ _ _ _ (destroy env s)
      (λ v t q.
        let e : view i p t.shared ≡ record (view i p s.shared) { char = destroyed } =
          ground (arith, q) in
        rw e (move Move.destroy done))
      (λ _ _ z. z) (destroy_lem env s n i p fd o quiet n)
