-- ===== src/Machine/State.antt =====
-- The state that the functions of HybridLock.c read and write: the extension object, the process
-- with its descriptors and errno, and what all processes share.
use shmrpc.Prelude.{ℕ, String, ℤ, pos, Option, none, Bool, false, if◌then◌else◌, ◌==◌, str_eq}

-- A malloc'ed C string: never allocated, readable, or given back by `free`.
pub data CString : Type 0 where
  null : CString
  live : String → CString
  freed : CString

-- `struct __pyx_obj_10HybridLock_HybridLock`, less the Python header and the method table.
-- A semaphore is known by its number, a mapping by the number of its shared page.
pub record HybridLock : Type 0 where
  pub semaphore : Option ℕ
  pub cleaned_up : Bool
  pub spin_lock_char : Option ℕ
  pub spin_lock_pid : Option ℕ
  pub shm_fd : ℤ
  pub sem_loc : CString

-- What `tp_alloc` gives: every field is zero.
abbrev pub zeroed : HybridLock
zeroed = record {
  semaphore = none;
  cleaned_up = false;
  spin_lock_char = none;
  spin_lock_pid = none;
  shm_fd = pos 0;
  sem_loc = null;
}

-- Named semaphores and named shared memory. The code keeps a `char` in the first byte of a shared
-- page and an `int` in the four bytes behind it.
pub record Shared : Type 0 where
  pub sem_name : String → Option ℕ
  pub sem_value : ℕ → ℕ
  pub sem_count : ℕ
  pub shm_name : String → Option ℕ
  pub shm_count : ℕ
  pub page_char : ℕ → ℤ
  pub page_pid : ℕ → ℤ

-- `sem_refs` counts what this process has opened and not closed, of each semaphore. `tick` counts
-- the calls made so far.
pub record State : Type 0 where
  pub self : HybridLock
  pub shared : Shared
  pub sem_refs : ℕ → ℕ
  pub fds : ℕ → Option ℕ
  pub next_fd : ℕ
  pub errno : ℕ
  pub tick : ℕ

abbrev pub update {ℓ} : {A : Type ℓ} → (ℕ → A) → ℕ → A → ℕ → A
update f i a j = if i == j then a else f j

abbrev pub bind_name {ℓ} : {A : Type ℓ} → (String → A) → String → A → String → A
bind_name f k a j = if str_eq k j then a else f j

-- Values of errno on Linux.
abbrev pub enoent : ℕ
enoent = 2

abbrev pub ebadf : ℕ
ebadf = 9

abbrev pub eexist : ℕ
eexist = 17

abbrev pub einval : ℕ
einval = 22

abbrev pub etimedout : ℕ
etimedout = 110

abbrev pub sem_value_max : ℕ
sem_value_max = 2147483647

-- The calls that the environment may let fail.
pub data Call : Type 0 where
  malloc sem_open_existing sem_open_new shm_open_existing shm_open_create fchmod ftruncate : Call
  mmap close sem_close sem_unlink shm_unlink sem_getvalue sem_wait sem_timedwait : Call
  sem_post clock_gettime : Call

pub record Timespec : Type 0 where
  pub tv_sec : ℕ
  pub tv_nsec : ℕ

-- What the code does not decide. `fault` lets a call fail with an errno, for a reason outside this
-- model (permissions, limits, signals); `clock` is what CLOCK_REALTIME shows; `others` is what the
-- other processes have done to the shared state by a round of the spin loop, and `waiting` what
-- they do while this one sleeps on a semaphore, until the given second if there is a deadline.
pub record Env : Type 0 where
  pub fault : ℕ → Call → Option ℕ
  pub clock : ℕ → Timespec
  pub others : ℕ → Shared → Shared
  pub waiting : ℕ → Option ℤ → Shared → Shared
  pub getpid : ℤ
  pub strerror : ℕ → String
