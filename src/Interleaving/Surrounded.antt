-- ===== src/Interleaving/Surrounded.antt =====
-- What the other processes do around a function of HybridLock.antt, as runs of their steps.
use shmrpc.Prelude.{ℕ, ◌<◌, ℤ, ◌≡◌, ◌≢◌, Option, refl, arith, ◌∙◌}
use shmrpc.Machine.State.{Shared, Env, update}
use shmrpc.Interleaving.Process.{Lock, Pc, spin, wait, Move}
use shmrpc.Interleaving.System.{System, Step, run, Reach, after}

-- The semaphore `i` and the page `p` as a lock.
abbrev pub view : (i p : ℕ) → Shared → Lock
view i p sh = record { value = sh.sem_value i; char = sh.page_char p; pid = sh.page_pid p }

abbrev pub over : (i p : ℕ) → Shared → (ℕ → Pc) → System
over i p sh pc = record { lock = view i p sh; pc = pc }

-- Any number of steps.
pub data Ran (n : ℕ) (pids : ℕ → ℤ) (s : System) : System → Type 0 where
  none_yet : Ran n pids s s
  then : {t u : System} → Ran n pids s t → Step n pids t u → Ran n pids s u

-- Any number of steps of processes other than `k`.
pub data Others (n : ℕ) (pids : ℕ → ℤ) (k : ℕ) (s : System) : System → Type 0 where
  still : Others n pids k s s
  other :
      {t : System} (j : ℕ) {m : Lock} {c : Pc}
      → j < n
      → j ≢ k
      → Others n pids k s t
      → Move (pids j) t.lock (t.pc j) m c
      → Others n pids k s (record { lock = m; pc = update t.pc j c })

pub Others-pc :
    {n : ℕ} {pids : ℕ → ℤ} {k : ℕ} {s t : System} → Others n pids k s t → t.pc k ≡ s.pc k
Others-pc still = refl
Others-pc (other j below differ r mv) = ground (arith, Others-pc r, differ)

pub Ran-Others :
    {n : ℕ} {pids : ℕ → ℤ} {k : ℕ} {s t u : System}
    → Ran n pids s t
    → Others n pids k t u
    → Ran n pids s u
Ran-Others r still = r
Ran-Others r (other j below differ o mv) = then (Ran-Others r o) (run j below mv)

pub Reach-Ran :
    {n : ℕ} {pids : ℕ → ℤ} {s t : System} → Reach n pids s → Ran n pids s t → Reach n pids t
Reach-Ran h none_yet = h
Reach-Ran h (then r st) = after (Reach-Ran h r) st

-- The process `k` of `n` runs in the environment `env`: its pid is that of the environment, and in
-- every state that the processes can reach, what the others do by a round of the spin loop, while `k`
-- spins, and during a sleep, while `k` waits, are steps of them.
pub record Surrounds (env : Env) (n : ℕ) (pids : ℕ → ℤ) (k i p : ℕ) : Type 0 where
  pub inside : k < n
  pub mine : pids k ≡ env.getpid
  pub spinning :
      (tick : ℕ) (sh : Shared) (pc : ℕ → Pc)
      → Reach n pids (over i p sh pc)
      → pc k ≡ spin
      → (pc' : ℕ → Pc) × Others n pids k (over i p sh pc) (over i p (env.others tick sh) pc')
  pub sleeping :
      (tick : ℕ) (deadline : Option ℤ) (sh : Shared) (pc : ℕ → Pc)
      → Reach n pids (over i p sh pc)
      → pc k ≡ wait
      → (pc' : ℕ → Pc) × Others n pids k
          (over i p sh pc)
          (over i p (env.waiting tick deadline sh) pc')

-- A run from `start` has come to this shared state, with `k` at `c`.
abbrev pub At : (n : ℕ) (pids : ℕ → ℤ) (k i p : ℕ) → System → Pc → Shared → Type 0
At n pids k i p start c sh = (pc : ℕ → Pc) × Ran n pids start (over i p sh pc) × (pc k ≡ c)

module _ (env : Env) (n : ℕ) (pids : ℕ → ℤ) (k i p : ℕ) (around : Surrounds env n pids k i p)
    (start : System) (reached : Reach n pids start) where
  abbrev Now : Pc → Shared → Type 0
  Now = At n pids k i p start

  pub others-At : (tick : ℕ) (sh : Shared) → Now spin sh → Now spin (env.others tick sh)
  others-At tick sh (pc, r, e) =
      let (pc', o) = around.spinning tick sh pc (Reach-Ran reached r) e in
      (pc', Ran-Others r o, Others-pc o ∙ e)

  pub waiting-At :
      (tick : ℕ) (deadline : Option ℤ) (sh : Shared)
      → Now wait sh
      → Now wait (env.waiting tick deadline sh)
  waiting-At tick deadline sh (pc, r, e) =
      let (pc', o) = around.sleeping tick deadline sh pc (Reach-Ran reached r) e in
      (pc', Ran-Others r o, Others-pc o ∙ e)

  -- A step of the process itself.
  pub own :
      (c c' : Pc) (sh sh' : Shared) {m : Lock}
      → Now c sh
      → Move env.getpid (view i p sh) c m c'
      → view i p sh' ≡ m
      → Now c' sh'
  own c c' sh sh' (pc, r, e) mv f =
      (update pc k c', then r (run k around.inside (rw (around.mine, e, f) mv)), ground arith)
