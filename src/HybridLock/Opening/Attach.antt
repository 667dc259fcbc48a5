-- ===== src/HybridLock/Opening/Attach.antt =====
-- `init_mmap` when no call fails.
use shmrpc.Prelude.{
  String, ◌+◌, ◌≡◌, ℤ, pos, minus_one, eq_ℤ, to_char, some, true, false, str_eq_iff, arith,
  if◌then◌else◌,
}
use shmrpc.Machine.State.{State, Call, Env}
use shmrpc.Machine.Flow.{Exc, semaphore_destroyed}
use shmrpc.Machine.Calls.{page_of, shm_open_existing, shm_open_create, fchmod}
use shmrpc.Machine.Post.{Post, Post-bind_quiet}
use shmrpc.HybridLock.Object.{is_destroyed}
use shmrpc.HybridLock.InitMmap.{init_mmap, open_shm, create_shm, map_page, set_page}
use shmrpc.HybridLock.Progress.{IsQuiet}
use shmrpc.HybridLock.Opening.Spec.{page_named, with_page, with_char}

module _ (env : Env) (quiet : IsQuiet env) where
  -- The descriptor is open on the page of the name, and all else in the object is as before.
  abbrev Opened : String → State → State → Type 0
  Opened name s t =
      (t.shared ≡ with_page name s.shared)
      × (t.self ≡ record s.self { shm_fd = t.self.shm_fd })
      × (page_of t.self.shm_fd t ≡ some (page_named name s.shared))
      × (t.sem_refs ≡ s.sem_refs)

  open_shm_lem :
      (name : String) (s : State) → Post (λ _ t. Opened name s t) (λ _ _. ⊥) (open_shm env name s)
  unfolding open_shm create_shm shm_open_existing shm_open_create fchmod
  open_shm_lem name s = ground (
    arith,
    str_eq_iff name name,
    quiet.faultless s.tick Call.shm_open_existing,
    quiet.faultless (s.tick + 1) Call.shm_open_create,
    quiet.faultless (s.tick + 1 + 1) Call.fchmod,
  )

  map_page_lem :
      (name : String) (s t : State)
      → Opened name s t
      → Post (λ p u. (p ≡ page_named name s.shared) × Opened name s u) (λ _ _. ⊥) (map_page env t)
  unfolding map_page
  map_page_lem name s t o =
      ground (arith, quiet.faultless t.tick Call.ftruncate, quiet.faultless (t.tick + 1) Call.mmap)

  -- The object is attached to its page; the mark of a destroyed lock raises.
  abbrev pub Attached : String → ℤ → State → State → Type 0
  Attached name v s t =
      let p = page_named name s.shared in
      (t.shared ≡ (
        if eq_ℤ v minus_one
        then with_page name s.shared
        else with_char p (to_char v) (with_page name s.shared)))
      × (t.self ≡ record s.self {
        spin_lock_char = some p;
        spin_lock_pid = t.self.spin_lock_pid;
        shm_fd = t.self.shm_fd;
      })
      × (page_of t.self.shm_fd t ≡ some p)
      × (t.sem_refs ≡ s.sem_refs)

  abbrev pub Accepted : String → ℤ → State → ℤ → State → Type 0
  Accepted name v s r u =
      (r ≡ pos 0)
      × Attached name v s u
      × (is_destroyed (u.shared.page_char (page_named name s.shared)) ≡ false)
      × (u.self.spin_lock_pid ≡ some (page_named name s.shared))

  abbrev pub Refused : String → ℤ → State → Exc → State → Type 0
  Refused name v s e u =
      (e ≡ semaphore_destroyed)
      × Attached name v s u
      × (is_destroyed (u.shared.page_char (page_named name s.shared)) ≡ true)

  set_page_lem :
      (name : String) (v : ℤ) (s t : State)
      → Opened name s t
      → Post (Accepted name v s) (Refused name v s) (set_page env v (page_named name s.shared) t)
  unfolding set_page
  set_page_lem name v s t o = ground arith

  pub init_mmap_lem :
      (name : String) (v : ℤ) (s : State)
      → Post (Accepted name v s) (Refused name v s) (init_mmap env name v s)
  unfolding init_mmap
  init_mmap_lem name v s =
      Post-bind_quiet (λ _ t. Opened name s t) _ _ (open_shm env name s) _ (open_shm_lem name s)
        λ _ t o.
          Post-bind_quiet (λ p u. (p ≡ page_named name s.shared) × Opened name s u) _ _
            (map_page env t) _ (map_page_lem name s t o)
            λ p u q. rw q.0 (set_page_lem name v s u q.1)
