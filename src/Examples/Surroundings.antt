-- ===== src/Examples/Surroundings.antt =====
-- Two processes on one lock: process 0 runs the functions, and process 1, whenever it holds the lock
-- while process 0 spins or waits, goes on until it has given it back.
use shmrpc.Prelude.{
  ℕ, zero, suc, ◌+◌, ◌<◌, ◌≡◌, ◌≢◌, inl, inr, ℤ, pos, none, if◌then◌else◌, ◌==◌, ◌&&◌, not, refl,
  arith, Bool-cases,
}
use shmrpc.Machine.State.{Shared, State, Env, update}
use shmrpc.Machine.Post.{Post, SameProcess}
use shmrpc.HybridLock.Object.{is_destroyed, destroyed, locked, unlocked}
use shmrpc.HybridLock.Lock.{lock}
use shmrpc.HybridLock.Unlock.{unlock}
use shmrpc.HybridLock.Cleanup.{IsOpen}
use shmrpc.Interleaving.Process.{
  Pc, idle, spin, wait, taken, marked, critical, releasing, checking, posting, stuck, Move, holds,
  signed,
}
use shmrpc.Interleaving.Sum.{some-heavy}
use shmrpc.Interleaving.System.{System, Reach, created, after, run, fresh}
use shmrpc.Interleaving.Exclusion.{Reach-Inv}
use shmrpc.Interleaving.Surrounded.{Others, still, other, Surrounds, over, At}
use shmrpc.Interleaving.LockRuns.{Comes, Alone, lock-Ran}
use shmrpc.Interleaving.ReleaseRuns.{AloneTo, unlock-Moves}
use shmrpc.Examples.Worlds.{calm, attached}

abbrev pids : ℕ → ℤ
pids k = pos (42 + k)

abbrev helped : Shared → Shared
helped sh =
    if (sh.sem_value 0 == 0) && not (is_destroyed (sh.page_char 0))
    then record sh {
      sem_value = update sh.sem_value 0 1;
      page_char = update sh.page_char 0 unlocked;
      page_pid = update sh.page_pid 0 (pos 43);
    }
    else sh

abbrev busy : Env
busy = record calm { others = λ _ sh. helped sh; waiting = λ _ _ sh. helped sh }

abbrev Finishes : System → Type 0
Finishes s =
    (pc : ℕ → Pc) × Others 2 pids 0 s
      (record { lock = record { value = 1; char = unlocked; pid = pos 43 }; pc = pc })

-- Process 1 goes on from each place where it holds the lock.
module _ (s : System) where
  abbrev Came : ℤ → ℤ → (ℕ → Pc) → Type 0
  Came c x pc =
      Others 2 pids 0 s (record { lock = record { value = 0; char = c; pid = x }; pc = pc })

  from_posting : (pc : ℕ → Pc) → pc 1 ≡ posting → Came unlocked (pos 43) pc → Finishes s
  from_posting pc e o =
      (update pc 1 idle, other 1 (omega arith) (λ f. ground arith) o (rw e Move.post))

  from_checking : (pc : ℕ → Pc) → pc 1 ≡ checking → Came unlocked (pos 43) pc → Finishes s
  from_checking pc e o =
      from_posting (update pc 1 posting) refl (
        other 1 (omega arith) (λ f. ground arith) o
          (rw e (Move.see_taken (λ f. ground arith) refl)))

  from_releasing : (c : ℤ) (pc : ℕ → Pc) → pc 1 ≡ releasing → Came c (pos 43) pc → Finishes s
  from_releasing c pc e o =
      from_checking (update pc 1 checking) refl
        (other 1 (omega arith) (λ f. ground arith) o (rw e Move.clear))

  from_critical :
      (c : ℤ) (pc : ℕ → Pc) → c ≢ destroyed → pc 1 ≡ critical → Came c (pos 43) pc → Finishes s
  from_critical c pc alive e o =
      from_releasing c (update pc 1 releasing) refl
        (other 1 (omega arith) (λ f. ground arith) o (rw e (Move.unlock alive)))

  from_stuck :
      (c : ℤ) (pc : ℕ → Pc) → c ≢ destroyed → pc 1 ≡ stuck → Came c (pos 43) pc → Finishes s
  from_stuck c pc alive e o =
      from_critical c (update pc 1 critical) alive refl
        (other 1 (omega arith) (λ f. ground arith) o (rw e Move.retry))

  from_checked :
      (c : ℤ) (pc : ℕ → Pc) → c ≢ destroyed → pc 1 ≡ checking → Came c (pos 43) pc → Finishes s
  from_checked c pc alive e o =
      from_stuck c (update pc 1 stuck) alive refl
        (other 1 (omega arith) (λ f. ground arith) o (rw e Move.fail_value))

  from_posted :
      (c : ℤ) (pc : ℕ → Pc) → c ≢ destroyed → pc 1 ≡ posting → Came c (pos 43) pc → Finishes s
  from_posted c pc alive e o =
      from_stuck c (update pc 1 stuck) alive refl
        (other 1 (omega arith) (λ f. ground arith) o (rw e Move.fail_post))

  from_marked : (c x : ℤ) (pc : ℕ → Pc) → c ≢ destroyed → pc 1 ≡ marked → Came c x pc → Finishes s
  from_marked c x pc alive e o =
      from_critical c (update pc 1 critical) alive refl
        (other 1 (omega arith) (λ f. ground arith) o (rw e Move.sign))

  from_taken : (c x : ℤ) (pc : ℕ → Pc) → pc 1 ≡ taken → Came c x pc → Finishes s
  from_taken c x pc e o =
      from_marked locked x (update pc 1 marked) (λ f. ground arith) refl
        (other 1 (omega arith) (λ f. ground arith) o (rw e Move.mark))

from_holder :
    (c x : ℤ) (pc : ℕ → Pc) (h : Pc)
    → pc 1 ≡ h
    → holds h ≡ 1
    → c ≢ destroyed
    → (signed h ≡ 1 → x ≡ pos 43)
    → Finishes (record { lock = record { value = 0; char = c; pid = x }; pc = pc })
from_holder c x pc idle e h alive f = absurd (omega (arith, h))
from_holder c x pc spin e h alive f = absurd (omega (arith, h))
from_holder c x pc wait e h alive f = absurd (omega (arith, h))
from_holder c x pc taken e h alive f = from_taken _ c x pc e still
from_holder c x pc marked e h alive f = from_marked _ c x pc alive e still
from_holder c x pc critical e h alive f = from_critical _ c pc alive e (rw (f refl) still)
from_holder c x pc releasing e h alive f = from_releasing _ c pc e (rw (f refl) still)
from_holder c x pc checking e h alive f = from_checked _ c pc alive e (rw (f refl) still)
from_holder c x pc posting e h alive f = from_posted _ c pc alive e (rw (f refl) still)
from_holder c x pc stuck e h alive f = from_stuck _ c pc alive e (rw (f refl) still)

-- Where process 0 does not hold the lock, the others do what the environment says.
module _ (sh : Shared) (pc : ℕ → Pc) (r : Reach 2 pids (over 0 0 sh pc))
    (out : holds (pc 0) ≡ 0) where
  -- One that holds the lock is process 1.
  heavy-holder : (i : ℕ) → i < 2 → 0 < holds (pc i) → holds (pc 1) ≡ 1
  heavy-holder zero l h = absurd (omega (arith, h, out))
  heavy-holder (suc zero) l h = ground (arith, h)
  heavy-holder (suc (suc i)) l h = absurd (omega (arith, l))

  holder : sh.sem_value 0 ≡ 0 → holds (pc 1) ≡ 1
  holder z = elim (some-heavy holds 2 pc) [
    | inl (i, l, h) ↦ heavy-holder i l h
    | inr e ↦ absurd (omega (arith, (Reach-Inv r).counted, z, e))
  ]

  released : sh.sem_value 0 ≡ 0 → sh.page_char 0 ≢ destroyed → Finishes (over 0 0 sh pc)
  released z alive = rw z (
      from_holder (sh.page_char 0) (sh.page_pid 0) pc (pc 1) refl (holder z) alive
        ((Reach-Inv r).named 1 (omega arith)))

  helped-Others : (pc' : ℕ → Pc) × Others 2 pids 0 (over 0 0 sh pc) (over 0 0 (helped sh) pc')
  helped-Others = elim (Bool-cases ((sh.sem_value 0 == 0) && not (is_destroyed (sh.page_char 0)))) [
    | inl e ↦ rw e (released (ground (arith, e)) (λ f. ground (arith, e, f)))
    | inr e ↦ rw e (pc, still)
  ]

busy-Surrounds : Surrounds busy 2 pids 0 0 0
busy-Surrounds = record {
  inside = omega arith;
  mine = refl;
  spinning = λ tick sh pc r e. helped-Others sh pc r (rw e refl);
  sleeping = λ tick deadline sh pc r e. helped-Others sh pc r (rw e refl);
}

-- The state of process 0 with these values in the semaphore and the page.
abbrev with_page : ℕ → ℤ → ℤ → State
with_page value char pid = record (attached value char) {
  shared = record (attached value char).shared { page_pid = λ _. pid };
}

with_page-IsOpen : (value : ℕ) (char pid : ℤ) → IsOpen (with_page value char pid) "svc" 0 0 3
with_page-IsOpen value char pid = record {
  ready = record { sem = refl; char = refl; pid = refl; held = omega arith };
  uncleaned = refl;
  name = refl;
  descriptor = refl;
  mapped = refl;
}

abbrev unheld : State
unheld = with_page 1 unlocked (pos 0)

lock-Ran_example :
    Comes
      (λ t.
        SameProcess unheld t
        × Alone busy 2 pids 0 0 0 busy-Surrounds unheld
            (with_page-IsOpen 1 unlocked (pos 0)).ready
            (λ _. idle)
            created
            refl
            none
            t)
      (At 2 pids 0 0 0 fresh)
      (lock busy none unheld)
lock-Ran_example =
    lock-Ran busy 2 pids 0 0 0 busy-Surrounds unheld (with_page-IsOpen 1 unlocked (pos 0)).ready
      (λ _. idle) created refl none

-- Process 0 has come out of its `lock`.
abbrev held : State
held = with_page 0 locked (pos 42)

abbrev at_critical : ℕ → Pc
at_critical =
    update (update (update (update (update (λ _. idle) 0 spin) 0 wait) 0 taken) 0 marked) 0 critical

held_reached : Reach 2 pids (over 0 0 held.shared at_critical)
held_reached =
    after
      (after
        (after
          (after (after created (run 0 (omega arith) (Move.enter (λ e. ground arith))))
            (run 0 (omega arith) Move.leave))
          (run 0 (omega arith) (Move.acquire refl)))
        (run 0 (omega arith) Move.mark))
      (run 0 (omega arith) Move.sign)

unlock-Moves_example :
    let behind = AloneTo busy 2 pids 0 0 0 (omega arith) refl held at_critical held_reached refl in
    Post
      (λ _ t. behind idle t.shared × (t.shared.sem_value 0 ≡ 1) × (t.shared.page_char 0 ≡ unlocked))
      (λ _ t. behind stuck t.shared × (t.shared.sem_value 0 ≡ 0))
      (unlock busy held)
unlock-Moves_example =
    unlock-Moves busy 2 pids 0 0 0 (omega arith) refl held at_critical held_reached refl
      (with_page-IsOpen 0 locked (pos 42)).ready
