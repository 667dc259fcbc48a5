-- ===== src/Interleaving/Exclusion.antt =====
-- One process at a time holds the lock.
use shmrpc.Prelude.{ℕ, ◌+◌, ◌≤◌, ◌<◌, ℤ, ◌≡◌, ◌⊎◌, inl, inr, refl, arith}
use native.Mathlib.Decide.{ℕ_discrete}
use shmrpc.Machine.State.{update}
use shmrpc.Interleaving.Process.{Lock, Pc, idle, Move, holds, signed}
use shmrpc.Interleaving.Sum.{sum_below, sum-update, le-sum, add-le-sum, sum-zero}
use shmrpc.Interleaving.System.{System, Step, run, Reach, created, after}

-- The semaphore counts the holders, and the page names the one that has signed.
pub record Inv (n : ℕ) (pids : ℕ → ℤ) (m : Lock) (pc : ℕ → Pc) : Type 0 where
  pub counted : m.value + sum_below holds n pc ≡ 1
  pub named : (i : ℕ) → i < n → signed (pc i) ≡ 1 → m.pid ≡ pids i

module _ {me : ℤ} where
  -- What a move takes from the semaphore it adds to the holders, and the other way round.
  Move-balance :
      {m m' : Lock} {c c' : Pc}
      → m.value + holds c ≤ 1
      → Move me m c m' c'
      → m'.value + holds c' ≡ m.value + holds c
  Move-balance h (Move.acquire e) = omega arith
  Move-balance h (Move.see_free _ e) = omega arith
  Move-balance h Move.post = omega arith
  Move-balance h _ = refl

  -- Only a holder changes the pid in the page, and only to its own.
  Move-pid :
      {m m' : Lock} {c c' : Pc}
      → Move me m c m' c'
      → (m'.pid ≡ m.pid) ⊎ ((holds c ≡ 1) × (m'.pid ≡ me))
  Move-pid Move.sign = inr (refl, refl)
  Move-pid _ = inl refl

  -- A process that has signed now had signed before, or has just done so.
  Move-signed :
      {m m' : Lock} {c c' : Pc}
      → Move me m c m' c'
      → signed c' ≡ 1
      → ((signed c ≡ 1) × (m'.pid ≡ m.pid)) ⊎ (m'.pid ≡ me)
  Move-signed Move.sign h = inr refl
  Move-signed _ h = ground arith

signed-le-holds : (c : Pc) → signed c ≤ holds c
signed-le-holds c = ground arith

module _ {n : ℕ} {pids : ℕ → ℤ} {m : Lock} {pc : ℕ → Pc} (inv : Inv n pids m pc) (i : ℕ)
    (inside : i < n) where
  Move-named :
      {m' : Lock} {c' : Pc}
      → Move (pids i) m (pc i) m' c'
      → (j : ℕ) → j < n
      → signed (update pc i c' j) ≡ 1
      → m'.pid ≡ pids j
  Move-named {c'} mv j below h = elim (ℕ_discrete i j) [
    | yes same ↦ ground (arith, Move-signed mv, inv.named i inside)
    | no other ↦ ground (
      arith,
      Move-pid mv,
      add-le-sum holds n pc i j inside below other,
      signed-le-holds (pc j),
      inv.counted,
      inv.named j below,
    )
  ]

  Move-Inv : {m' : Lock} {c' : Pc} → Move (pids i) m (pc i) m' c' → Inv n pids m' (update pc i c')
  Move-Inv {c'} mv = record {
    counted = omega (
      arith,
      inv.counted,
      Move-balance (omega (arith, inv.counted, le-sum holds n pc i inside)) mv,
      sum-update holds n pc i c' inside,
    );
    named = Move-named mv;
  }

pub Step-Inv :
    {n : ℕ} {pids : ℕ → ℤ} {s t : System}
    → Step n pids s t
    → Inv n pids s.lock s.pc
    → Inv n pids t.lock t.pc
Step-Inv (run i inside mv) inv = Move-Inv inv i inside mv

pub Reach-Inv : {n : ℕ} {pids : ℕ → ℤ} {s : System} → Reach n pids s → Inv n pids s.lock s.pc
Reach-Inv {n} created = record {
  counted = omega (arith, sum-zero holds n idle refl);
  named = λ i below h. absurd (omega arith);
}
Reach-Inv (after r st) = Step-Inv st (Reach-Inv r)

-- Any number of processes call `lock`, `unlock` (only while they hold the lock) and `destroy` on a
-- new lock, interleaved in any way, with calls that fail or time out at any point. No two of them
-- ever hold the lock: at most one is between the return of its wait and the end of its post.
pub mutual_exclusion :
    {n : ℕ} {pids : ℕ → ℤ} {s : System}
    → Reach n pids s
    → (i j : ℕ) → i < n
    → j < n
    → holds (s.pc i) ≡ 1
    → holds (s.pc j) ≡ 1
    → i ≡ j
mutual_exclusion {n} {s} r i j below_i below_j in_i in_j = elim (ℕ_discrete i j) [
  | yes same ↦ same
  | no other ↦
      absurd
        (omega (arith, (Reach-Inv r).counted, add-le-sum holds n s.pc i j below_i below_j other))
]

-- In the same runs, while a process is between the return of `lock` and the end of its `unlock`, the
-- semaphore is 0 and the page holds the pid of that process.
pub holder_named :
    {n : ℕ} {pids : ℕ → ℤ} {s : System}
    → Reach n pids s
    → (i : ℕ) → i < n
    → signed (s.pc i) ≡ 1
    → (s.lock.value ≡ 0) × (s.lock.pid ≡ pids i)
holder_named {n} {s} r i below h = (
  omega (arith, (Reach-Inv r).counted, le-sum holds n s.pc i below, signed-le-holds (s.pc i)),
  (Reach-Inv r).named i below h,
)
