-- ===== src/Interleaving/Liveness.antt =====
-- No deadlock and no starvation: the forward steps of all processes come to an end, and everyone who
-- was in `lock` has held the lock by then.
use shmrpc.Prelude.{ℕ, ◌+◌, ◌*◌, ◌≤◌, ◌<◌, ℤ, ◌≡◌, ◌≢◌, refl, arith, ◌⊎◌, inl, inr}
use native.Mathlib.Decide.{ℕ_discrete}
use shmrpc.Machine.State.{update}
use shmrpc.HybridLock.Object.{destroyed}
use shmrpc.Interleaving.Process.{
  Lock, Pc, idle, spin, wait, taken, marked, critical, releasing, checking, posting, stuck, Move,
  holds,
}
use shmrpc.Interleaving.Sum.{sum_below, sum-update, le-sum, some-heavy, sum-le}
use shmrpc.Interleaving.System.{System, run, Reach}
use shmrpc.Interleaving.Exclusion.{Inv, Reach-Inv, Step-Inv}
use shmrpc.Interleaving.Forward.{IsForward, rank, entering, Move-rank, Move-alive, Move-entering}

-- Forward steps of the processes, in any order.
pub data Run (n : ℕ) (pids : ℕ → ℤ) : System → System → Type 0 where
  done : {s : System} → Run n pids s s
  step :
      {s t : System} (i : ℕ) {m : Lock} {c : Pc}
      → i < n
      → (mv : Move (pids i) s.lock (s.pc i) m c) → IsForward mv
      → Run n pids (record { lock = m; pc = update s.pc i c }) t
      → Run n pids s t

abbrev pub steps : {n : ℕ} {pids : ℕ → ℤ} {s t : System} → Run n pids s t → ℕ
steps done = 0
steps (step i inside mv h r) = steps r + 1

-- Process `j` holds the lock, its `lock` having returned, somewhere on the way.
abbrev pub Visits : {n : ℕ} {pids : ℕ → ℤ} {s t : System} → (j : ℕ) → Run n pids s t → Type 0
Visits j (done {s}) = s.pc j ≡ critical
Visits j (step {s} i inside mv h r) = (s.pc j ≡ critical) ⊎ Visits j r

-- A process can make a forward step.
abbrev pub CanGo : ℕ → (ℕ → ℤ) → System → Type 0
CanGo n pids s =
    (i : ℕ) × (i < n)
    × (m : Lock) × (c : Pc) × (mv : Move (pids i) s.lock (s.pc i) m c) × IsForward mv

module _ {me : ℤ} {m : Lock} (alive : m.char ≢ destroyed) where
  go :
      (c : Pc)
      → c ≢ idle
      → m.value + holds c ≡ 1
      → (m' : Lock) × (c' : Pc) × (mv : Move me m c m' c') × IsForward mv
  go idle h e = absurd (h refl)
  go spin h e = (_, _, Move.leave, tt)
  go wait h e = (_, _, Move.acquire {v = 0} (omega (arith, e)), tt)
  go taken h e = (_, _, Move.mark, tt)
  go marked h e = (_, _, Move.sign, tt)
  go critical h e = (_, _, Move.unlock alive, tt)
  go releasing h e = (_, _, Move.clear, tt)
  go checking h e = (_, _, Move.see_taken alive (omega (arith, e)), tt)
  go posting h e = (_, _, Move.post, tt)
  go stuck h e = (_, _, Move.retry, tt)

idle-rank : (c : Pc) → rank c ≡ 0 → c ≡ idle
idle-rank c h = ground arith

rank-le : (c : Pc) → rank c ≤ 8
rank-le c = ground arith

no_deadlock :
    (n : ℕ) (pids : ℕ → ℤ) (s : System)
    → Inv n pids s.lock s.pc
    → s.lock.char ≢ destroyed
    → CanGo n pids s ⊎ ((s.lock.value ≡ 1) × ((i : ℕ) → i < n → s.pc i ≡ idle))
no_deadlock n pids s inv alive = elim (some-heavy holds n s.pc) [
  | inl (i, l, h) ↦
      let (m, c, mv, forward) =
        go alive (s.pc i) (λ e. ground (arith, h, e))
          (omega (arith, inv.counted, le-sum holds n s.pc i l, h)) in
      inl (i, l, m, c, mv, forward)
  | inr z ↦ elim (some-heavy rank n s.pc) [
    | inl (i, l, h) ↦
        let (m, c, mv, forward) =
          go alive (s.pc i) (λ e. ground (arith, h, e))
            (omega (arith, inv.counted, z, le-sum holds n s.pc i l)) in
        inl (i, l, m, c, mv, forward)
    | inr e ↦ inr (
      omega (arith, inv.counted, z),
      λ i l. idle-rank (s.pc i) (omega (arith, e, le-sum rank n s.pc i l)),
    )
  ]
]

module _ {n : ℕ} {pids : ℕ → ℤ} where
  after-Inv : {s t : System} → Run n pids s t → Inv n pids s.lock s.pc → Inv n pids t.lock t.pc
  after-Inv done inv = inv
  after-Inv (step i inside mv h r) inv = after-Inv r (Step-Inv (run i inside mv) inv)

  after-alive : {s t : System} → Run n pids s t → s.lock.char ≢ destroyed → t.lock.char ≢ destroyed
  after-alive done alive = alive
  after-alive (step i inside mv h r) alive = after-alive r (Move-alive mv h alive)

  steps-rank :
      {s t : System}
      → (r : Run n pids s t) → steps r + sum_below rank n t.pc ≤ sum_below rank n s.pc
  steps-rank done = omega arith
  steps-rank (step {s} i {c} inside mv h r) =
      omega (arith, steps-rank r, Move-rank mv h, sum-update rank n s.pc i c inside)

  start-Visits : {s t : System} → (j : ℕ) (r : Run n pids s t) → s.pc j ≡ critical → Visits j r
  start-Visits j done h = h
  start-Visits j (step i inside mv g r) h = inl h

  entering-Visits :
      {s t : System}
      → (j : ℕ) (r : Run n pids s t) → entering (s.pc j) ≡ 1
      → t.pc j ≡ idle
      → Visits j r
  entering-Visits j done e z = absurd (ground (arith, e, z))
  entering-Visits j (step {s} i {c} inside mv h r) e z = elim (ℕ_discrete i j) [
    | yes same ↦ elim (Move-entering mv h (rw same e)) [
      | inl k ↦ inr (entering-Visits j r (ground (arith, same, k)) z)
      | inr k ↦ inr (start-Visits j r (ground (arith, same, k)))
    ]
    | no other ↦ inr (entering-Visits j r (ground (arith, other, e)) z)
  ]

  -- In every state that `n` processes can reach, unless the page carries the mark, if from then on no
  -- call fails or times out, nobody destroys the lock or enters it anew, and the spin loops end: no
  -- matter in which order the processes go on, together they make at most `8 n` steps; as long as
  -- one of them is not idle, one can go on; and where none can, the semaphore is 1, and everyone who
  -- was in `lock` has held the lock and is idle again.
  pub everyone_served :
      {s t : System}
      → Reach n pids s
      → s.lock.char ≢ destroyed
      → (r : Run n pids s t)
      → (steps r ≤ 8 * n)
        × (CanGo n pids t
            ⊎ ((t.lock.value ≡ 1)
                × ((i : ℕ) → i < n → (t.pc i ≡ idle) × (entering (s.pc i) ≡ 1 → Visits i r))))
  everyone_served {s} {t} reached alive r = (
    omega (arith, steps-rank r, sum-le rank 8 n s.pc rank-le),
    elim (no_deadlock n pids t (after-Inv r (Reach-Inv reached)) (after-alive r alive)) [
      | inl go_on ↦ inl go_on
      | inr (v, all_idle) ↦
          inr (v, λ i l. (all_idle i l, λ e. entering-Visits i r e (all_idle i l)))
    ],
  )
