-- ===== src/HybridLock/Opening/Semaphores.antt =====
-- The modes of the constructor that do not destroy, whichever calls fail.
use shmrpc.Prelude.{
  ℕ, String, ◌<◌, ◌≡◌, ◌⊎◌, inl, inr, ℤ, pos, minus_one, to_uint, Option, none, some, arith,
}
use shmrpc.Machine.State.{State, Env, live}
use shmrpc.Machine.Flow.{Exc, no_such_semaphore, semaphore_exists, Flow, and_then}
use shmrpc.Machine.Calls.{page_of, sem_open_existing, sem_open_new}
use shmrpc.Machine.Post.{Post, Post-bind_quiet, Post-weaken}
use shmrpc.HybridLock.Object.{some_or_raise}
use shmrpc.HybridLock.InitMmap.{init_mmap}
use shmrpc.HybridLock.Create.{
  assign, create_if_none, connect_or_create, connect_to_existing, create_exclusive, create_again,
}
use shmrpc.HybridLock.CleanedOnce.{IsCleaned}
use shmrpc.HybridLock.Opening.Mapping.{Attached, init_mmap-Attached}

-- The name is allocated, and the object counts as cleaned up until the constructor is through.
abbrev pub Started : String → State → Type 0
Started name t = IsCleaned t × (t.self.sem_loc ≡ live name)

-- The result of `sem_open` is the semaphore of the object.
abbrev pub Holds : Option ℕ → State → Type 0
Holds none t = t.self.semaphore ≡ none
Holds (some i) t = (t.self.semaphore ≡ some i) × (0 < t.sem_refs i)

abbrev pub Assigned : String → Option ℕ → State → Type 0
Assigned name o t = Started name t × Holds o t

abbrev pub Complete : String → Option ℕ → ℤ → State → Type 0
Complete name o r t =
    (r ≡ pos 0)
    × Assigned name o t
    × ((p : ℕ) × (t.self.spin_lock_char ≡ some p)
        × (t.self.spin_lock_pid ≡ some p)
        × (page_of t.self.shm_fd t ≡ some p))

-- The object has everything.
abbrev pub Opened : String → ℤ → State → Type 0
Opened name r t = (i : ℕ) × Complete name (some i) r t

abbrev pub Noticed : String → (State → Flow ℤ) → Type 0
Noticed name f = (s : State) → Started name s → Post (Opened name) (λ _ u. IsCleaned u) (f s)

abbrev pub Unnoticed : String → ℤ → State → Type 0
Unnoticed name r t = Opened name r t ⊎ Complete name none r t

module _ (env : Env) where
  existing-Assigned :
      (name : String) (s : State)
      → Started name s
      → Post (Assigned name) (λ _ _. ⊥) (assign env (sem_open_existing env name) s)
  unfolding sem_open_existing
  existing-Assigned name s h = ground arith

  new-Assigned :
      (name : String) (n : ℕ) (s : State)
      → Started name s
      → Post (Assigned name) (λ _ _. ⊥) (assign env (sem_open_new env name n) s)
  unfolding sem_open_new
  new-Assigned name n s h = ground arith

  completed :
      (name : String) (o : Option ℕ) (s t : State) (p : ℕ) (r : ℤ)
      → Assigned name o s
      → r ≡ pos 0
      → Attached s p t
      → Complete name o r t
  completed name none s t p r a e h = ground (arith, a, e, h)
  completed name (some i) s t p r a e h = ground (arith, a, e, h)

  init_mmap-Complete :
      (name : String) (v : ℤ) (o : Option ℕ) (s : State)
      → Assigned name o s
      → Post (Complete name o) (λ _ u. IsCleaned u) (init_mmap env name v s)
  init_mmap-Complete name v o s a =
      Post-weaken (λ r u. (r ≡ pos 0) × ((p : ℕ) × Attached s p u)) _ (λ _ u. IsCleaned u) _
        (init_mmap env name v s) (λ r u h. completed name o s u h.1.0 r a h.0 h.1.1) (λ _ _ h. h)
        (init_mmap-Attached env name v s a.0.0)

  raise_or_attach :
      (name : String) (v : ℤ) (e : Exc) (o : Option ℕ) (s : State)
      → Assigned name o s
      → Post
          (Opened name)
          (λ _ u. IsCleaned u)
          (and_then (some_or_raise o e s) (λ _. init_mmap env name v))
  raise_or_attach name v e none s a = a.0.0
  raise_or_attach name v e (some i) s a =
      Post-weaken (Complete name (some i)) _ (λ _ u. IsCleaned u) _ (init_mmap env name v s)
        (λ _ _ h. (i, h)) (λ _ _ h. h) (init_mmap-Complete name v (some i) s a)

  pub connect_to_existing-Noticed : (name : String) → Noticed name (connect_to_existing env name)
  unfolding connect_to_existing
  connect_to_existing-Noticed name s h =
      Post-bind_quiet (Assigned name) _ _ (assign env (sem_open_existing env name) s) _
        (existing-Assigned name s h)
        λ o t a. raise_or_attach name minus_one (no_such_semaphore name) o t a

  pub create_exclusive-Noticed :
      (name : String) (v : ℤ)
      → Noticed name (create_exclusive env name v) × Noticed name (create_again env name v)
  unfolding create_exclusive create_again
  create_exclusive-Noticed name v =
      let create : Noticed name (create_exclusive env name v) = λ s h.
        Post-bind_quiet (Assigned name) _ _ (assign env (sem_open_new env name (to_uint v)) s) _
          (new-Assigned name (to_uint v) s h)
          λ o t a. raise_or_attach name v (semaphore_exists name) o t a in
      (create, create)

  created :
      (name : String) (v : ℤ) (o : Option ℕ) (s : State)
      → Assigned name o s
      → Post (Unnoticed name) (λ _ u. IsCleaned u) (init_mmap env name v s)
  created name v none s a =
      Post-weaken (Complete name none) _ (λ _ u. IsCleaned u) _ (init_mmap env name v s)
        (λ _ _ h. inr h) (λ _ _ h. h) (init_mmap-Complete name v none s a)
  created name v (some i) s a =
      Post-weaken (Complete name (some i)) _ (λ _ u. IsCleaned u) _ (init_mmap env name v s)
        (λ _ _ h. inl (i, h)) (λ _ _ h. h) (init_mmap-Complete name v (some i) s a)

  create_if_none-Unnoticed :
      (name : String) (v : ℤ) (o : Option ℕ) (s : State)
      → Assigned name o s
      → Post (Unnoticed name) (λ _ u. IsCleaned u) (create_if_none env name v o s)
  create_if_none-Unnoticed name v none s a =
      Post-bind_quiet (Assigned name) _ _ (assign env (sem_open_new env name (to_uint v)) s) _
        (new-Assigned name (to_uint v) s a.0) (created name v)
  create_if_none-Unnoticed name v (some i) s a = created name minus_one (some i) s a

  pub connect_or_create-Unnoticed :
      (name : String) (v : ℤ) (s : State)
      → Started name s
      → Post (Unnoticed name) (λ _ u. IsCleaned u) (connect_or_create env name v s)
  unfolding connect_or_create
  connect_or_create-Unnoticed name v s h =
      Post-bind_quiet (Assigned name) _ _ (assign env (sem_open_existing env name) s) _
        (existing-Assigned name s h) (create_if_none-Unnoticed name v)
