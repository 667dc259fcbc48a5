-- ===== src/HybridLock/Opening/Spec.antt =====
-- What the four modes of the constructor do to the shared state, and what they raise, if no call
-- fails: a description without the calls.
use shmrpc.Prelude.{ℕ, String, ◌+◌, ℤ, pos, eq_ℤ, to_char, Option, none, some, if◌then◌else◌}
use shmrpc.Machine.State.{Shared, update, bind_name}
use shmrpc.Machine.Flow.{Exc, exception, no_such_semaphore, semaphore_exists, semaphore_destroyed}
use shmrpc.HybridLock.Object.{
  destroyed, is_destroyed, connect_or_create_mode, connect_to_existing_mode,
  create_new_exclusive_mode, create_new_overwrite_mode,
}

-- What is raised, if anything, and the shared state behind it.
abbrev pub Outcome : Type 0
Outcome = Option Exc × Shared

-- The page of a name: the one bound to it, or the next new one.
abbrev pub page_named : String → Shared → ℕ
page_named name sh = elim (sh.shm_name name) [ none ↦ sh.shm_count | some p ↦ p ]

-- The name has a page; a new one is zero.
abbrev pub with_page : String → Shared → Shared
with_page name sh = elim (sh.shm_name name) [
  | some _ ↦ sh
  | none ↦ record sh {
    shm_name = bind_name sh.shm_name name (some sh.shm_count);
    shm_count = sh.shm_count + 1;
    page_char = update sh.page_char sh.shm_count (pos 0);
    page_pid = update sh.page_pid sh.shm_count (pos 0);
  }
]

abbrev pub with_char : ℕ → ℤ → Shared → Shared
with_char p c sh = record sh { page_char = update sh.page_char p c }

abbrev pub with_semaphore : String → ℕ → Shared → Shared
with_semaphore name n sh = record sh {
  sem_name = bind_name sh.sem_name name (some sh.sem_count);
  sem_value = update sh.sem_value sh.sem_count n;
  sem_count = sh.sem_count + 1;
}

-- A page that carries the mark is refused.
abbrev pub refusing : ℕ → Shared → Outcome
refusing p sh = (if is_destroyed (sh.page_char p) then some semaphore_destroyed else none, sh)

abbrev pub connect : String → Shared → Outcome
connect name sh = refusing (page_named name sh) (with_page name sh)

abbrev pub create : String → ℕ → Shared → Outcome
create name n sh =
    let p = page_named name sh in
    refusing p (with_char p (to_char (pos n)) (with_page name (with_semaphore name n sh)))

-- The effect of `destroy` on a lock whose two names are bound.
abbrev pub retire : String → ℕ → Shared → Shared
retire name p sh = record sh {
  sem_name = bind_name sh.sem_name name none;
  shm_name = bind_name sh.shm_name name none;
  page_char = update sh.page_char p destroyed;
}

abbrev pub connect_or_create : String → ℕ → Shared → Outcome
connect_or_create name n sh = elim (sh.sem_name name) [
  | none ↦ create name n sh
  | some _ ↦ connect name sh
]

abbrev pub connect_to_existing : String → Shared → Outcome
connect_to_existing name sh = elim (sh.sem_name name) [
  | none ↦ (some (no_such_semaphore name), sh)
  | some _ ↦ connect name sh
]

abbrev pub create_exclusive : String → ℕ → Shared → Outcome
create_exclusive name n sh = elim (sh.sem_name name) [
  | none ↦ create name n sh
  | some _ ↦ (some (semaphore_exists name), sh)
]

-- A lock of the name is retired, unless its page carries the mark: then the name stays taken.
abbrev pub cleared : String → Shared → Shared
cleared name sh = elim (sh.sem_name name) [
  | none ↦ sh
  | some _ ↦
      let p = page_named name sh in
      let sh' = with_page name sh in
      if is_destroyed (sh'.page_char p) then sh' else retire name p sh'
]

abbrev pub create_overwrite : String → ℕ → Shared → Outcome
create_overwrite name n sh = create_exclusive name n (cleared name sh)

-- The constructor in any mode, with the initial value `n`.
abbrev pub opening : ℤ → String → ℕ → Shared → Outcome
opening mode name n sh =
    if eq_ℤ mode connect_or_create_mode
    then connect_or_create name n sh
    else if eq_ℤ mode connect_to_existing_mode
    then connect_to_existing name sh
    else if eq_ℤ mode create_new_exclusive_mode
    then create_exclusive name n sh
    else if eq_ℤ mode create_new_overwrite_mode
    then create_overwrite name n sh
    else (some (exception "Unknown mode"), sh)
