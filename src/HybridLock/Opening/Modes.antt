-- ===== src/HybridLock/Opening/Modes.antt =====
-- The modes of the constructor that do not destroy, when no call fails.
use shmrpc.Prelude.{
  ℕ, String, ◌+◌, ◌<◌, ◌≤◌, ◌≡◌, ℤ, pos, pos_part, minus_one, none, some, str_eq_iff, arith,
}
use shmrpc.Machine.State.{Shared, State, Call, Env, sem_value_max, enoent, update}
use shmrpc.Machine.Flow.{Exc}
use shmrpc.Machine.Post.{Post}
use shmrpc.HybridLock.Create.{create_exclusive, connect_to_existing, connect_or_create}
use shmrpc.HybridLock.Progress.{IsQuiet}
use shmrpc.HybridLock.Opening.Spec
use shmrpc.HybridLock.Opening.Spec.{
  Outcome, page_named, with_page, with_char, with_semaphore, create, connect,
}
use shmrpc.HybridLock.Opening.Attach.{init_mmap_lem}

-- The semaphore of a name: the one bound to it, or the next new one.
abbrev pub sem_named : String → Shared → ℕ
sem_named name sh = elim (sh.sem_name name) [ none ↦ sh.sem_count | some i ↦ i ]

-- The object has got semaphore `i` and page `p`, and all else in it is as before.
abbrev pub Got : (i p : ℕ) → State → State → Type 0
Got i p s t =
    (t.self ≡ record s.self {
      semaphore = some i;
      spin_lock_char = some p;
      spin_lock_pid = some p;
      shm_fd = pos (pos_part t.self.shm_fd);
    })
    × (t.fds (pos_part t.self.shm_fd) ≡ some p)
    × (0 < t.sem_refs i)

abbrev pub Opens : Outcome → (i p : ℕ) → State → ℤ → State → Type 0
Opens o i p s r t = (r ≡ pos 0) × (o ≡ (none, t.shared)) × Got i p s t

abbrev pub Raises : Outcome → Exc → State → Type 0
Raises o e t = (o ≡ (some e, t.shared))

module _ (env : Env) (quiet : IsQuiet env) (name : String) (s : State) where
  created : ℕ → State
  created n = record s {
    self = record s.self { semaphore = some s.shared.sem_count };
    shared = with_semaphore name n s.shared;
    sem_refs = update s.sem_refs s.shared.sem_count 1;
    tick = s.tick + 1;
  }

  pub create_exclusive_lem :
      (n : ℕ)
      → n ≤ sem_value_max
      → Post
          (Opens
            (Spec.create_exclusive name n s.shared)
            (sem_named name s.shared)
            (page_named name s.shared)
            s)
          (Raises (Spec.create_exclusive name n s.shared))
          (create_exclusive env name (pos n) s)
  unfolding create_exclusive created
  create_exclusive_lem n small = ground (
    arith,
    str_eq_iff name name,
    quiet.faultless s.tick Call.sem_open_new,
    init_mmap_lem env quiet name (pos n) (created n),
  )

  opened : ℕ → State
  opened i = record s {
    self = record s.self { semaphore = some i };
    sem_refs = update s.sem_refs i (s.sem_refs i + 1);
    tick = s.tick + 1;
  }

  pub connect_to_existing_lem :
      Post
        (Opens
          (Spec.connect_to_existing name s.shared)
          (sem_named name s.shared)
          (page_named name s.shared)
          s)
        (Raises (Spec.connect_to_existing name s.shared))
        (connect_to_existing env name s)
  unfolding connect_to_existing opened
  connect_to_existing_lem = ground (
    arith,
    quiet.faultless s.tick Call.sem_open_existing,
    init_mmap_lem env quiet name minus_one (opened (sem_named name s.shared)),
  )

  -- The state behind the two calls of `sem_open`, the first of which has failed.
  created_late : ℕ → State
  created_late n = record s {
    self = record s.self { semaphore = some s.shared.sem_count };
    shared = with_semaphore name n s.shared;
    sem_refs = update s.sem_refs s.shared.sem_count 1;
    errno = enoent;
    tick = s.tick + 1 + 1;
  }

  pub connect_or_create_lem :
      (n : ℕ)
      → n ≤ sem_value_max
      → Post
          (Opens
            (Spec.connect_or_create name n s.shared)
            (sem_named name s.shared)
            (page_named name s.shared)
            s)
          (Raises (Spec.connect_or_create name n s.shared))
          (connect_or_create env name (pos n) s)
  unfolding connect_or_create opened created_late
  connect_or_create_lem n small = ground (
    arith,
    str_eq_iff name name,
    quiet.faultless s.tick Call.sem_open_existing,
    quiet.faultless (s.tick + 1) Call.sem_open_new,
    init_mmap_lem env quiet name minus_one (opened (sem_named name s.shared)),
    init_mmap_lem env quiet name (pos n) (created_late n),
  )
