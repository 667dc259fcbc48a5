-- ===== src/Machine/Calls.antt =====
-- The calls of libc that HybridLock.c makes, as POSIX and Linux document them.
use shmrpc.Prelude.{
  ℕ, String, ◌+◌, ◌-◌, ℤ, pos, negsuc, minus_one, Option, none, some, Bool, true, false,
  if◌then◌else◌, ltb, ◌==◌,
}
use shmrpc.Machine.State.{
  CString, null, live, freed, State, update, bind_name, enoent, ebadf, eexist, einval, etimedout,
  sem_value_max, Call, Timespec, Env,
}
use shmrpc.Machine.Flow.{
  M, ok, blocks, crash, null_semaphore, closed_semaphore, null_page, invalid_string,
}

abbrev pub ticked : State → State
ticked s = record s { tick = s.tick + 1 }

-- A call that fails leaves its reason in errno.
abbrev pub fail : {A : Type 0} → ℕ → A → M A
fail e a s = ok a (record s { errno = e })

-- The pointer is followed: NULL and a semaphore that this process has closed are no semaphore.
abbrev pub use_semaphore : {A : Type 0} → Option ℕ → (ℕ → M A) → M A
use_semaphore none k s = crash null_semaphore s
use_semaphore (some i) k s = if s.sem_refs i == 0 then crash closed_semaphore s else k i s

abbrev pub use_string : {A : Type 0} → CString → (String → M A) → M A
use_string (live n) k s = k n s
use_string null k s = crash invalid_string s
use_string freed k s = crash invalid_string s

-- The shared page that a descriptor is open on.
abbrev pub page_of : ℤ → State → Option ℕ
page_of (pos fd) s = s.fds fd
page_of (negsuc _) s = none

unfoldable pub load_char : Option ℕ → M ℤ
load_char none s = crash null_page s
load_char (some p) s = ok (s.shared.page_char p) s

unfoldable pub store_char : Option ℕ → ℤ → M (Unit {0})
store_char none v s = crash null_page s
store_char (some p) v s =
    ok tt (record s { shared = record s.shared { page_char = update s.shared.page_char p v } })

unfoldable pub load_pid : Option ℕ → M ℤ
load_pid none s = crash null_page s
load_pid (some p) s = ok (s.shared.page_pid p) s

unfoldable pub store_pid : Option ℕ → ℤ → M (Unit {0})
store_pid none v s = crash null_page s
store_pid (some p) v s =
    ok tt (record s { shared = record s.shared { page_pid = update s.shared.page_pid p v } })

unfoldable pub free : M (Unit {0})
free s =
    use_string s.self.sem_loc (λ _ t. ok tt (record t { self = record t.self { sem_loc = freed } }))
      s

-- Results of calls on open objects.
abbrev open_semaphore : ℕ → M (Option ℕ)
open_semaphore i s = ok (some i) (record s { sem_refs = update s.sem_refs i (s.sem_refs i + 1) })

abbrev create_semaphore : String → ℕ → M (Option ℕ)
create_semaphore name value s =
    let i = s.shared.sem_count in
    let sh = record s.shared {
      sem_name = bind_name s.shared.sem_name name (some i);
      sem_value = update s.shared.sem_value i value;
      sem_count = i + 1;
    } in
    ok (some i) (record s { shared = sh; sem_refs = update s.sem_refs i 1 })

abbrev open_fd : ℕ → M ℤ
open_fd p s =
    ok (pos s.next_fd) (record s { fds = update s.fds s.next_fd (some p); next_fd = s.next_fd + 1 })

-- New shared memory reads as zeros.
abbrev create_page : String → M ℤ
create_page name s =
    let p = s.shared.shm_count in
    let sh = record s.shared {
      shm_name = bind_name s.shared.shm_name name (some p);
      shm_count = p + 1;
      page_char = update s.shared.page_char p (pos 0);
      page_pid = update s.shared.page_pid p (pos 0);
    } in
    open_fd p (record s { shared = sh })

module _ (env : Env) where
  open env use {fault, waiting, clock}

  abbrev pub attempt : {A : Type 0} → Call → A → M A → M A
  attempt c failed body s = elim (fault s.tick c) [
    | some e ↦ fail e failed (ticked s)
    | none ↦ body (ticked s)
  ]

  -- Whether the block was allocated.
  unfoldable pub malloc : M Bool
  malloc = attempt Call.malloc false (λ s. ok true s)

  -- sem_open(name, O_RDWR)
  unfoldable pub sem_open_existing : String → M (Option ℕ)
  sem_open_existing name =
      attempt Call.sem_open_existing none λ s. elim (s.shared.sem_name name) [
        | none ↦ fail enoent none s
        | some i ↦ open_semaphore i s
      ]

  -- sem_open(name, O_CREAT | O_EXCL, mode, value)
  unfoldable pub sem_open_new : String → ℕ → M (Option ℕ)
  sem_open_new name value = attempt Call.sem_open_new none λ s.
      if ltb sem_value_max value then fail einval none s else elim (s.shared.sem_name name) [
        | some i ↦ fail eexist none s
        | none ↦ create_semaphore name value s
      ]

  -- shm_open(name, O_RDWR, mode)
  unfoldable pub shm_open_existing : String → M ℤ
  shm_open_existing name =
      attempt Call.shm_open_existing minus_one
        λ s. elim (s.shared.shm_name name) [ none ↦ fail enoent minus_one s | some p ↦ open_fd p s ]

  -- shm_open(name, O_RDWR | O_CREAT, mode)
  unfoldable pub shm_open_create : String → M ℤ
  shm_open_create name =
      attempt Call.shm_open_create minus_one
        λ s. elim (s.shared.shm_name name) [ none ↦ create_page name s | some p ↦ open_fd p s ]

  -- fchmod and ftruncate: only that the descriptor is open matters here.
  abbrev on_fd : Call → ℤ → M ℤ
  on_fd c fd =
      attempt c minus_one
        λ s. elim (page_of fd s) [ none ↦ fail ebadf minus_one s | some _ ↦ ok (pos 0) s ]

  unfoldable pub fchmod : ℤ → M ℤ
  fchmod = on_fd Call.fchmod

  unfoldable pub ftruncate : ℤ → M ℤ
  ftruncate = on_fd Call.ftruncate

  -- The page that is mapped; `none` is MAP_FAILED.
  unfoldable pub mmap : ℤ → M (Option ℕ)
  mmap fd =
      attempt Call.mmap none
        λ s. elim (page_of fd s) [ none ↦ fail ebadf none s | some p ↦ ok (some p) s ]

  unfoldable pub close : ℤ → M ℤ
  close (negsuc n) = attempt Call.close minus_one (fail ebadf minus_one)
  close (pos fd) = attempt Call.close minus_one λ s. elim (s.fds fd) [
    | none ↦ fail ebadf minus_one s
    | some _ ↦ ok (pos 0) (record s { fds = update s.fds fd none })
  ]

  unfoldable pub sem_close : Option ℕ → M ℤ
  sem_close sem = use_semaphore sem λ i.
      attempt Call.sem_close minus_one
        λ s. ok (pos 0) (record s { sem_refs = update s.sem_refs i (s.sem_refs i - 1) })

  unfoldable pub sem_unlink : String → M ℤ
  sem_unlink name = attempt Call.sem_unlink minus_one λ s. elim (s.shared.sem_name name) [
    | none ↦ fail enoent minus_one s
    | some _ ↦
        ok (pos 0) (record s {
          shared = record s.shared { sem_name = bind_name s.shared.sem_name name none };
        })
  ]

  unfoldable pub shm_unlink : String → M ℤ
  shm_unlink name = attempt Call.shm_unlink minus_one λ s. elim (s.shared.shm_name name) [
    | none ↦ fail enoent minus_one s
    | some _ ↦
        ok (pos 0) (record s {
          shared = record s.shared { shm_name = bind_name s.shared.shm_name name none };
        })
  ]

  -- The value, or `none` where the call returns -1.
  unfoldable pub sem_getvalue : Option ℕ → M (Option ℤ)
  sem_getvalue sem =
      use_semaphore sem
        λ i. attempt Call.sem_getvalue none λ s. ok (some (pos (s.shared.sem_value i))) s

  unfoldable pub sem_post : Option ℕ → M ℤ
  sem_post sem = use_semaphore sem λ i. attempt Call.sem_post minus_one λ s. ok (pos 0) (record s {
    shared = record s.shared { sem_value = update s.shared.sem_value i (s.shared.sem_value i + 1) };
  })

  -- Take one from a semaphore whose value is not 0.
  abbrev take_semaphore : ℕ → M ℤ → M ℤ
  take_semaphore i empty s =
      if s.shared.sem_value i == 0
      then empty s
      else ok (pos 0) (record s {
        shared = record s.shared {
          sem_value = update s.shared.sem_value i (s.shared.sem_value i - 1);
        };
      })

  abbrev sleep : Option ℤ → State → State
  sleep deadline s = record s { shared = waiting s.tick deadline s.shared }

  unfoldable pub sem_wait : Option ℕ → M ℤ
  sem_wait sem =
      use_semaphore sem
        λ i. attempt Call.sem_wait minus_one λ s. take_semaphore i (λ t. blocks t) (sleep none s)

  unfoldable pub sem_timedwait : Option ℕ → ℤ → M ℤ
  sem_timedwait sem deadline = use_semaphore sem λ i.
      attempt Call.sem_timedwait minus_one
        λ s. take_semaphore i (fail etimedout minus_one) (sleep (some deadline) s)

  -- clock_gettime(CLOCK_REALTIME, …): `none` where the call returns -1.
  unfoldable pub clock_gettime : M (Option Timespec)
  clock_gettime = attempt Call.clock_gettime none (λ s. ok (some (clock s.tick)) s)
