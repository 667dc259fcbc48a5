-- ===== src/Interleaving/System.antt =====
-- `n` processes over one lock, in any order.
use shmrpc.Prelude.{ℕ, ◌<◌, ℤ, pos}
use shmrpc.Machine.State.{update}
use shmrpc.HybridLock.Object.{unlocked}
use shmrpc.Interleaving.Process.{Lock, Pc, idle, Move}

pub record System : Type 0 where
  pub lock : Lock
  pub pc : ℕ → Pc

-- `pids i` is the pid of process `i`.
pub data Step (n : ℕ) (pids : ℕ → ℤ) (s : System) : System → Type 0 where
  run :
      (i : ℕ) {m : Lock} {c : Pc}
      → i < n
      → Move (pids i) s.lock (s.pc i) m c
      → Step n pids s (record { lock = m; pc = update s.pc i c })

-- A lock that has just been created with the initial value UNLOCKED, and nobody holds.
abbrev pub fresh : System
fresh = record { lock = record { value = 1; char = unlocked; pid = pos 0 }; pc = λ _. idle }

pub data Reach (n : ℕ) (pids : ℕ → ℤ) : System → Type 0 where
  created : Reach n pids fresh
  after : {s t : System} → Reach n pids s → Step n pids s t → Reach n pids t
