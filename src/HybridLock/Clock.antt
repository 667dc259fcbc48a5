-- ===== src/HybridLock/Clock.antt =====
-- `get_current_time_ms`, and the floor division of `long` that Cython makes for `//`.
use shmrpc.Prelude.{
  ℕ, suc, ◌*◌, ◌/◌, ℤ, pos, negsuc, ◌+ℤ◌, ◌-ℤ◌, sub_ℕ, mul_ℤ, is_negative, eq_ℤ, not, ◌&&◌,
  if◌then◌else◌, none, some,
}
use shmrpc.Machine.State.{Timespec, Env}
use shmrpc.Machine.Flow.{M, ◌>>=◌, pure}
use shmrpc.Machine.Calls.{clock_gettime}

-- C's `a / b` rounds toward zero. The divisor is positive in all uses.
abbrev div_trunc : ℤ → ℕ → ℤ
div_trunc (pos a) b = pos (a / b)
div_trunc (negsuc a) b = sub_ℕ 0 (suc a / b)

-- For a positive `b` the test `(r ^ b) < 0` is that `r` is negative.
unfoldable pub div_long : ℤ → ℕ → ℤ
div_long a b =
    let q = div_trunc a b in
    let r = a -ℤ mul_ℤ q b in if not (eq_ℤ r (pos 0)) && is_negative r then q -ℤ pos 1 else q

unfoldable pub ms_of : Timespec → ℤ
unfolding div_long
ms_of ts = pos (ts.tv_sec * 1000) +ℤ div_long (pos ts.tv_nsec) 1000000

module _ (env : Env) where
  -- The result of `clock_gettime` is thrown away. Where the call fails `ts` is not set, and may hold
  -- anything: `env.clock` is any value there.
  unfoldable pub get_current_time_ms : M ℤ
  unfolding ms_of clock_gettime
  get_current_time_ms s =
      (do
        r ← clock_gettime env
        elim r [ none ↦ pure (ms_of (env.clock s.tick)) | some ts ↦ pure (ms_of ts) ])
        s
