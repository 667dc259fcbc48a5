-- ===== src/Interleaving/Forward.antt =====
-- Steps that lead on: no call fails or times out, nobody enters the lock or destroys it, and the spin
-- loops end.
use shmrpc.Prelude.{ℕ, ◌<◌, ℤ, ◌≡◌, ◌≢◌, refl, arith, ◌⊎◌, inl}
use shmrpc.HybridLock.Object.{destroyed}
use shmrpc.Interleaving.Process.{
  Lock, Pc, idle, spin, wait, taken, marked, critical, releasing, checking, posting, stuck, Move,
}

abbrev pub IsForward : {me : ℤ} {m m' : Lock} {c c' : Pc} → Move me m c m' c' → Type 0
IsForward (Move.refuse _) = ⊥
IsForward (Move.enter _) = ⊥
IsForward (Move.look _) = ⊥
IsForward (Move.see_mark _) = ⊥
IsForward Move.leave = Unit {0}
IsForward (Move.acquire _) = Unit {0}
IsForward Move.give_up = ⊥
IsForward Move.mark = Unit {0}
IsForward Move.sign = Unit {0}
IsForward (Move.refuse_unlock _) = ⊥
IsForward (Move.unlock _) = Unit {0}
IsForward Move.clear = Unit {0}
IsForward Move.fail_value = ⊥
IsForward (Move.see_taken _ _) = Unit {0}
IsForward (Move.see_free _ _) = Unit {0}
IsForward Move.post = Unit {0}
IsForward Move.fail_post = ⊥
IsForward Move.retry = Unit {0}
IsForward Move.destroy = ⊥

-- How many such steps a process can still make.
abbrev pub rank : Pc → ℕ
rank idle = 0
rank posting = 1
rank checking = 2
rank releasing = 3
rank critical = 4
rank stuck = 5
rank marked = 5
rank taken = 6
rank wait = 7
rank spin = 8

pub Move-rank :
    {me : ℤ} {m m' : Lock} {c c' : Pc} → (mv : Move me m c m' c') → IsForward mv → rank c' < rank c
Move-rank Move.leave h = omega arith
Move-rank _ h = ground arith

pub Move-alive :
    {me : ℤ} {m m' : Lock} {c c' : Pc}
    → (mv : Move me m c m' c') → IsForward mv
    → m.char ≢ destroyed
    → m'.char ≢ destroyed
Move-alive Move.leave h a = a
Move-alive _ h a = ground arith

-- In `lock`, not yet through.
abbrev pub entering : Pc → ℕ
entering spin = 1
entering wait = 1
entering taken = 1
entering marked = 1
entering _ = 0

pub Move-entering :
    {me : ℤ} {m m' : Lock} {c c' : Pc}
    → (mv : Move me m c m' c') → IsForward mv
    → entering c ≡ 1
    → (entering c' ≡ 1) ⊎ (c' ≡ critical)
Move-entering Move.leave h e = inl refl
Move-entering _ h e = ground arith
