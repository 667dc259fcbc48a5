-- ===== src/HybridLock/Lock.antt =====
-- `lock`: the arguments, the spin loop, and the two ways to wait.
use shmrpc.Prelude.{
  ℕ, zero, suc, ◌+◌, ltb, ℤ, pos, minus_one, ◌+ℤ◌, ◌-ℤ◌, ltb_ℤ, eq_ℤ, Option, none, some, Bool,
  true, false, ◌==◌, if◌then◌else◌, not,
}
use shmrpc.Machine.State.{etimedout, Env}
use shmrpc.Machine.Flow.{
  M, ok, exception, semaphore_destroyed, timeout_error, pure, raise, ◌>>=◌, ◌>>◌, get_self,
  get_errno,
}
use shmrpc.Machine.Calls.{
  ticked, load_char, store_char, store_pid, sem_wait, sem_timedwait, clock_gettime,
}
use shmrpc.HybridLock.Object.{locked, unlocked, is_destroyed, some_or_raise}
use shmrpc.HybridLock.Clock.{get_current_time_ms}

-- `struct __pyx_opt_args_10HybridLock_10HybridLock_lock`
pub record OptArgs : Type 0 where
  pub n : ℕ
  pub timeout : ℤ
  pub spin : ℤ

unfoldable pub timeout_of : Option OptArgs → ℤ
timeout_of none = minus_one
timeout_of (some o) = if ltb 0 o.n then o.timeout else minus_one

unfoldable pub spin_of : Option OptArgs → ℤ
spin_of none = pos 1
spin_of (some o) = if ltb 1 o.n then o.spin else pos 1

-- How a round of the loop ends, if it does not raise.
pub data Round : Type 0 where
  leave again : Round

-- `spin_times > 8192` ends the loop at the latest in round 8194.
abbrev pub spin_fuel : ℕ
spin_fuel = 8194

module _ (env : Env) where
  -- The other processes act between the reads of a round.
  abbrev observe : M (Unit {0})
  observe s = ok tt (ticked (record s { shared = env.others s.tick s.shared }))

  -- The tests of the char, and of the count of rounds.
  unfoldable pub look : ℕ → M Round
  unfolding load_char
  look spin_times = do
    self ← get_self
    observe
    c ← load_char self.spin_lock_char
    if is_destroyed c then raise semaphore_destroyed else pure tt
    observe
    c' ← load_char self.spin_lock_char
    pure (if eq_ℤ c' unlocked then leave else if ltb 8192 spin_times then leave else again)

  unfoldable pub spin_round : ℤ → ℕ → M Round
  spin_round from_t spin_times = do
    now ← get_current_time_ms env
    if ltb_ℤ (pos 6) (now -ℤ from_t) then pure leave else look spin_times

  -- `ok false` means that the fuel ran out.
  unfoldable pub spin_loop : ℕ → ℤ → ℕ → M Bool
  spin_loop zero from_t spin_times s = ok false s
  spin_loop (suc fuel) from_t spin_times s =
      (spin_round from_t spin_times
          >>= elim [ leave ↦ pure true | again ↦ spin_loop fuel from_t (spin_times + 1) ])
        s

  unfoldable pub wait_forever : M ℤ
  unfolding sem_wait store_char
  wait_forever = do
    self ← get_self
    retval ← sem_wait env self.semaphore
    if not (eq_ℤ retval minus_one)
        then store_char self.spin_lock_char locked
        else raise (exception "sem_wait")
    pure retval

  -- The message of the last exception ends in the timeout, which is left out.
  unfoldable pub wait_until : ℤ → M ℤ
  unfolding sem_timedwait store_char clock_gettime
  wait_until timeout = do
    self ← get_self
    now ← clock_gettime env
    ts ← some_or_raise now (exception "clock_gettime")
    retval ← sem_timedwait env self.semaphore (pos ts.tv_sec +ℤ timeout)
    e ← get_errno
    if not (eq_ℤ retval minus_one)
        then store_char self.spin_lock_char locked
        else if e == etimedout
        then raise timeout_error
        else raise (exception "sem_timedwait")
    pure retval

  -- From `if timeout == -1` to the end.
  unfoldable pub acquire : ℤ → M ℤ
  unfolding store_pid
  acquire timeout = do
    self ← get_self
    retval ← if eq_ℤ timeout minus_one then wait_forever else wait_until timeout
    if eq_ℤ retval (pos 0) then store_pid self.spin_lock_pid env.getpid else pure tt
    pure retval

  -- From `from_t = get_current_time_ms()` to the end.
  unfoldable pub contend : Option OptArgs → M ℤ
  contend args = do
    from_t ← get_current_time_ms env
    if eq_ℤ (spin_of args) (pos 0) then pure true else spin_loop spin_fuel from_t 0
    acquire (timeout_of args)

  unfoldable pub lock : Option OptArgs → M ℤ
  unfolding load_char
  lock args = do
    self ← get_self
    c ← load_char self.spin_lock_char
    if is_destroyed c then raise semaphore_destroyed else pure tt
    contend args
