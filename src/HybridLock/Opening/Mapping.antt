-- ===== src/HybridLock/Opening/Mapping.antt =====
-- `init_mmap`, whichever calls fail.
use shmrpc.Prelude.{ℕ, String, ◌≡◌, ℤ, pos, some, arith}
use shmrpc.Machine.State.{State, Env}
use shmrpc.Machine.Calls.{page_of, shm_open_existing, shm_open_create, fchmod, ftruncate, mmap}
use shmrpc.Machine.Post.{Post, Post-bind, Post-weaken}
use shmrpc.HybridLock.InitMmap.{
  init_mmap, open_shm, create_shm, map_page, set_page, exception_occurred,
}
use shmrpc.HybridLock.CleanedOnce.{IsCleaned}

-- The object is attached to page `p`, and all else in it is as before.
abbrev pub Attached : State → ℕ → State → Type 0
Attached s p t =
    (t.self
      ≡ record s.self { spin_lock_char = some p; spin_lock_pid = some p; shm_fd = t.self.shm_fd })
    × (page_of t.self.shm_fd t ≡ some p)
    × (t.sem_refs ≡ s.sem_refs)

module _ (env : Env) where
  -- Only the descriptor of the object is another one.
  abbrev Kept : State → State → Type 0
  Kept s t = (t.self ≡ record s.self { shm_fd = t.self.shm_fd }) × (t.sem_refs ≡ s.sem_refs)

  open_shm-Kept :
      (name : String) (s : State) → Post (λ _ t. Kept s t) (λ _ t. Kept s t) (open_shm env name s)
  unfolding open_shm create_shm shm_open_existing shm_open_create fchmod exception_occurred
  open_shm-Kept name s = ground arith

  abbrev Mapped : State → ℕ → State → Type 0
  Mapped s p t = Kept s t × (page_of t.self.shm_fd t ≡ some p)

  map_page-Mapped :
      (s t : State) → Kept s t → Post (λ p u. Mapped s p u) (λ _ u. Kept s u) (map_page env t)
  unfolding map_page ftruncate mmap
  map_page-Mapped s t k = ground arith

  set_page-Attached :
      (v : ℤ) (p : ℕ) (s t : State)
      → IsCleaned s
      → Mapped s p t
      → Post (λ r u. (r ≡ pos 0) × Attached s p u) (λ _ u. IsCleaned u) (set_page env v p t)
  unfolding set_page
  set_page-Attached v p s t c k = ground arith

  pub init_mmap-Attached :
      (name : String) (v : ℤ) (s : State)
      → IsCleaned s
      → Post
          (λ r u. (r ≡ pos 0) × ((p : ℕ) × Attached s p u))
          (λ _ u. IsCleaned u)
          (init_mmap env name v s)
  unfolding init_mmap
  init_mmap-Attached name v s c =
      Post-bind (λ _ t. Kept s t) _ _ (open_shm env name s) _
        (Post-weaken (λ _ t. Kept s t) _ (λ _ t. Kept s t) _ (open_shm env name s) (λ _ _ k. k)
          (λ _ _ k. ground (arith, k, c)) (open_shm-Kept name s))
        λ _ t k.
          Post-bind (λ p u. Mapped s p u) _ _ (map_page env t) _
            (Post-weaken (λ p u. Mapped s p u) _ (λ _ u. Kept s u) _ (map_page env t) (λ _ _ h. h)
              (λ _ _ h. ground (arith, h, c)) (map_page-Mapped s t k))
            λ p u m.
              Post-weaken (λ r w. (r ≡ pos 0) × Attached s p w) _ (λ _ w. IsCleaned w) _
                (set_page env v p u) (λ r w h. (h.0, (p, h.1))) (λ _ _ h. h)
                (set_page-Attached v p s u c m)
