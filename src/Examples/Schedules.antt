-- ===== src/Examples/Schedules.antt =====
-- Schedules of two processes over one lock.
use shmrpc.Prelude.{ℕ, ◌+◌, ◌*◌, ◌≤◌, ◌<◌, ◌⊎◌, ℤ, pos, ◌≡◌, refl, arith}
use shmrpc.Machine.State.{update}
use shmrpc.HybridLock.Object.{locked, unlocked}
use shmrpc.Interleaving.Forward.{entering}
use shmrpc.Interleaving.Liveness.{Run, done, step, steps, Visits, CanGo, everyone_served}
use shmrpc.Interleaving.Process.{
  Lock, Pc, releasing, checking, posting, spin, wait, taken, marked, critical, Move,
}
use shmrpc.Interleaving.System.{System, run, fresh, Reach, created, after}
use shmrpc.Interleaving.Exclusion.{mutual_exclusion, holder_named}
use shmrpc.Interleaving.Process.{idle}
use shmrpc.Examples.Worlds.{unlocked-ne-destroyed}

abbrev pids : ℕ → ℤ
pids i = pos (100 + i)

-- Process 0 moves; process 1 stays outside.
abbrev next : Lock → Pc → System → System
next m c s = record { lock = m; pc = update s.pc 0 c }

abbrev spinning : System
spinning = next fresh.lock spin fresh

abbrev waiting : System
waiting = next fresh.lock wait spinning

abbrev woken : System
woken = next (record { value = 0; char = unlocked; pid = pos 0 }) taken waiting

abbrev signing : System
signing = next (record { value = 0; char = locked; pid = pos 0 }) marked woken

abbrev inside : System
inside = next (record { value = 0; char = locked; pid = pos 100 }) critical signing

woken_reached : Reach 2 pids woken
woken_reached =
    after
      (after (after created (run 0 (omega arith) (Move.enter unlocked-ne-destroyed)))
        (run 0 (omega arith) Move.leave))
      (run 0 (omega arith) (Move.acquire refl))

inside_reached : Reach 2 pids inside
inside_reached =
    after (after woken_reached (run 0 (omega arith) Move.mark)) (run 0 (omega arith) Move.sign)

mutual_exclusion_example : ◌≡◌ {A = ℕ} 0 0
mutual_exclusion_example = mutual_exclusion inside_reached 0 0 (omega arith) (omega arith) refl refl

holder_named_example : (inside.lock.value ≡ 0) × (inside.lock.pid ≡ pids 0)
holder_named_example = holder_named inside_reached 0 (omega arith) refl

-- Process 0 goes on to the end.
abbrev closed : Lock
closed = record { value = 0; char = unlocked; pid = pos 100 }

abbrev settled : System
settled =
    next (record closed { value = 1 }) idle
      (next closed posting (next closed checking (next inside.lock releasing inside)))

to_the_end : Run 2 pids woken settled
to_the_end = step 0 (omega arith) Move.mark tt (
    step 0 (omega arith) Move.sign tt (
      step 0 (omega arith) (Move.unlock (λ e. ground arith)) tt (
        step 0 (omega arith) Move.clear tt (
          step 0 (omega arith) (Move.see_taken (λ e. ground arith) refl) tt
            (step 0 (omega arith) Move.post tt done)))))

everyone_served_example :
    (steps to_the_end ≤ 8 * 2)
    × (CanGo 2 pids settled
        ⊎ ((settled.lock.value ≡ 1)
            × ((i : ℕ)
                → i < 2
                → (settled.pc i ≡ idle) × (entering (woken.pc i) ≡ 1 → Visits i to_the_end))))
everyone_served_example = everyone_served woken_reached unlocked-ne-destroyed to_the_end
