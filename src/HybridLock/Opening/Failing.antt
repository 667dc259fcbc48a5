-- ===== src/HybridLock/Opening/Failing.antt =====
-- The constructor, whichever calls fail.
use shmrpc.Prelude.{
  ℕ, String, ◌≡◌, ◌⊎◌, inl, inr, ℤ, pos, negsuc, none, some, false, refl, arith, if◌then◌else◌,
  eq_ℤ, Bool-cases,
}
use shmrpc.Machine.State.{State, Env, zeroed, HybridLock}
use shmrpc.Machine.Flow.{
  semaphore_destroyed, exception, raise, Flow, ok, err, blocks, crash, catch, and_then, M, pure,
}
use shmrpc.Machine.Calls.{page_of, malloc}
use shmrpc.Machine.Post.{Post, Post-bind, Post-weaken}
use shmrpc.HybridLock.Object.{
  connect_or_create_mode, back_to, connect_to_existing_mode, create_new_exclusive_mode,
  create_new_overwrite_mode,
}
use shmrpc.HybridLock.Create.{
  ignore_missing, copy_name, connect_or_create, connect_to_existing, create_exclusive, cinit_with,
  destroy_existing, try_destroy, create_overwrite, cinit,
}
use shmrpc.HybridLock.Destroy.{destroy, del}
use shmrpc.HybridLock.CleanedOnce.{IsCleaned, refused}
use shmrpc.HybridLock.Cleanup.{IsOpen, Ends, destroy-Ends}
use shmrpc.HybridLock.Opening.Semaphores.{
  Started, Complete, Opened, Noticed, Unnoticed, connect_to_existing-Noticed,
  create_exclusive-Noticed, connect_or_create-Unnoticed,
}

-- A statement returns a value or raises an exception on a new object, and the old one is back.
back_to-self :
    {A : Type 0} (h : HybridLock) (r : Flow A)
    → Ends r
    → Post (λ _ t. t.self ≡ h) (λ _ t. t.self ≡ h) (back_to h r)
back_to-self h (ok a t) q = refl
back_to-self h (err e t) q = refl
back_to-self h (blocks t) q = q
back_to-self h (crash c t) q = q

-- The exceptions of the overwriting mode that are swallowed change nothing.
ignore_missing-self :
    (h : HybridLock) (r : Flow ℤ)
    → Post (λ _ t. t.self ≡ h) (λ _ t. t.self ≡ h) r
    → Post
        (λ _ t. t.self ≡ h)
        (λ _ t. t.self ≡ h)
        (catch (and_then r (λ _. pure tt)) ignore_missing)
unfolding ignore_missing
ignore_missing-self h (ok v t) q = q
ignore_missing-self h (err e t) q = ground (arith, q)
ignore_missing-self h (blocks t) q = q
ignore_missing-self h (crash c t) q = q

-- The constructor is through: the object is open under the name, or it has no semaphore.
abbrev pub IsOpened : String → ℤ → State → Type 0
IsOpened name r t = (r ≡ pos 0) × ((i : ℕ) × (p : ℕ) × (fd : ℕ) × IsOpen t name i p fd)

abbrev pub HasNone : String → ℤ → State → Type 0
HasNone name r t = (r ≡ pos 0) × (t.self.semaphore ≡ none) × (t.self.cleaned_up ≡ false)

module _ (env : Env) where
  -- Behind the allocation of the name, or where that has failed.
  copy_name-Started :
      (name : String) (s : State)
      → Post (λ _ t. Started name t) (λ _ t. IsCleaned t) (copy_name env name s)
  unfolding copy_name malloc
  copy_name-Started name s = ground arith

  abbrev kept : State → State
  kept t = record t { self = record t.self { cleaned_up = false } }

  descriptor :
      (fd : ℤ) (t : State) (p : ℕ)
      → page_of fd t ≡ some p
      → (k : ℕ) × (fd ≡ pos k) × (t.fds k ≡ some p)
  descriptor (pos k) t p e = (k, refl, e)
  descriptor (negsuc k) t p e = ground (arith, e)

  Opened-IsOpen :
      (name : String) (r : ℤ) (t : State) → Opened name r t → IsOpened name (pos 0) (kept t)
  Opened-IsOpen name r t (i, (e, h, (p, c, q, m))) =
      let (k, f, g) = descriptor t.self.shm_fd t p m in
      (
        refl,
        (
          i,
          p,
          k,
          record {
            ready = record { sem = h.1.0; char = c; pid = q; held = h.1.1 };
            uncleaned = refl;
            name = h.0.1;
            descriptor = f;
            mapped = g;
          },
        ),
      )

  -- The constructor in the mode that connects, with anything for the overwriting mode.
  connecting-IsOpened :
      (f : String → ℤ → M ℤ) (name : String) (v : ℤ) (s : State)
      → Post
          (IsOpened name)
          (λ _ t. IsCleaned t)
          (cinit_with env f name connect_to_existing_mode v s)
  unfolding cinit_with
  connecting-IsOpened f name v s =
      Post-bind (λ _ t. Started name t) _ _ (copy_name env name s) _ (copy_name-Started name s)
        λ _ t h.
          Post-bind (Opened name) _ _ (connect_to_existing env name t) _
            (connect_to_existing-Noticed env name t h) λ r u o. Opened-IsOpen name r u o

  destroying-Ends :
      (name : String) (v : ℤ) (s : State)
      → Ends (
          and_then
            (cinit_with env (λ _ _. pure (pos 0)) name connect_to_existing_mode v s)
            (λ _. destroy env))
  destroying-Ends name v s =
      let connect = cinit_with env (λ _ _. pure (pos 0)) name connect_to_existing_mode v s in
      Post-bind (IsOpened name) _ _ connect _
        (Post-weaken (IsOpened name) _ (λ _ t. IsCleaned t) _ connect (λ _ _ h. h) (λ _ _ _. tt)
          (connecting-IsOpened (λ _ _. pure (pos 0)) name v s))
        λ _ t (_, (i, p, fd, o)). (destroy-Ends env t name i p fd o).0

  try_destroy-self :
      (name : String) (v : ℤ) (s : State)
      → Post (λ _ t. t.self ≡ s.self) (λ _ t. t.self ≡ s.self) (try_destroy env name v s)
  unfolding try_destroy destroy_existing
  try_destroy-self name v s =
      ignore_missing-self s.self _
        (back_to-self s.self _ (destroying-Ends name v (record s { self = zeroed })))

  create_overwrite-Noticed : (name : String) (v : ℤ) → Noticed name (create_overwrite env name v)
  unfolding create_overwrite
  create_overwrite-Noticed name v s h =
      Post-bind (λ _ t. t.self ≡ s.self) _ _ (try_destroy env name v s) _
        (Post-weaken (λ _ t. t.self ≡ s.self) _ (λ _ t. t.self ≡ s.self) _
          (try_destroy env name v s) (λ _ _ e. e) (λ _ t e. ground (arith, e, h.0))
          (try_destroy-self name v s))
        λ _ t e. (create_exclusive-Noticed env name v).1 t (ground (arith, e, h))

  -- What each mode does, behind the allocation of the name.
  abbrev mode_body : String → ℤ → ℤ → M ℤ
  mode_body name mode v =
      if eq_ℤ mode connect_or_create_mode
      then connect_or_create env name v
      else if eq_ℤ mode connect_to_existing_mode
      then connect_to_existing env name
      else if eq_ℤ mode create_new_exclusive_mode
      then create_exclusive env name v
      else if eq_ℤ mode create_new_overwrite_mode
      then create_overwrite env name v
      else raise (exception "Unknown mode")

  abbrev Through : String → ℤ → ℤ → State → Type 0
  Through name mode r t =
      Opened name r t ⊎ ((mode ≡ connect_or_create_mode) × Complete name none r t)

  Noticed-Through :
      (name : String) (mode : ℤ) (f : M ℤ) (s : State)
      → Started name s
      → Noticed name f
      → Post (Through name mode) (λ _ t. IsCleaned t) (f s)
  Noticed-Through name mode f s h n =
      Post-weaken (Opened name) _ (λ _ t. IsCleaned t) _ (f s) (λ _ _ o. inl o) (λ _ _ c. c) (n s h)

  mode_body-Through :
      (name : String) (mode v : ℤ) (s : State)
      → Started name s
      → Post (Through name mode) (λ _ t. IsCleaned t) (mode_body name mode v s)
  mode_body-Through name mode v s h = elim (Bool-cases (eq_ℤ mode connect_or_create_mode)) [
    | inl e ↦
        rw (e, mode_body)
          (Post-weaken (Unnoticed name) _ (λ _ t. IsCleaned t) _ (connect_or_create env name v s)
            (λ _ _ u. elim u [ inl o ↦ inl o | inr o ↦ inr (ground (arith, e), o) ]) (λ _ _ c. c)
            (connect_or_create-Unnoticed env name v s h))
    | inr e ↦ elim (Bool-cases (eq_ℤ mode connect_to_existing_mode)) [
      | inl f ↦
          rw (e, f, mode_body)
            (Noticed-Through name mode (connect_to_existing env name) s h
              (connect_to_existing-Noticed env name))
      | inr f ↦ elim (Bool-cases (eq_ℤ mode create_new_exclusive_mode)) [
        | inl g ↦
            rw (e, f, g, mode_body)
              (Noticed-Through name mode (create_exclusive env name v) s h
                (create_exclusive-Noticed env name v).0)
        | inr g ↦ elim (Bool-cases (eq_ℤ mode create_new_overwrite_mode)) [
          | inl k ↦
              rw (e, f, g, k, mode_body)
                (Noticed-Through name mode (create_overwrite env name v) s h
                  (create_overwrite-Noticed name v))
          | inr k ↦ rw (e, f, g, k, mode_body) h.0
        ]
      ]
    ]
  ]

  Through-IsOpened :
      (name : String) (mode r : ℤ) (t : State)
      → Through name mode r t
      → IsOpened name (pos 0) (kept t)
        ⊎ ((mode ≡ connect_or_create_mode) × HasNone name (pos 0) (kept t))
  Through-IsOpened name mode r t (inl o) = inl (Opened-IsOpen name r t o)
  Through-IsOpened name mode r t (inr (e, c)) = inr (e, (refl, c.1.1, refl))

  -- Whatever calls fail, the constructor ends in every mode, with a value or an exception: it does not
  -- sleep or use a pointer that is NULL or closed. If it returns, it returns 0, and the object is open
  -- under the name; but in the mode CONNECT_OR_CREATE it may have no semaphore instead. If it raises,
  -- the object counts as cleaned up: `destroy` of it raises SemaphoreDestroyedException and `__del__`
  -- does nothing, so what the constructor has opened stays open.
  pub cinit-Ends :
      (name : String) (mode v : ℤ) (s : State)
      → Post
          (λ r t. IsOpened name r t ⊎ ((mode ≡ connect_or_create_mode) × HasNone name r t))
          (λ _ t. (destroy env t ≡ err semaphore_destroyed t) × (del env t ≡ ok tt t))
          (cinit env name mode v s)
  unfolding cinit cinit_with
  cinit-Ends name mode v s =
      Post-bind (λ _ t. Started name t) _ _ (copy_name env name s) _
        (Post-weaken (λ _ t. Started name t) _ (λ _ t. IsCleaned t) _ (copy_name env name s)
          (λ _ _ h. h) (λ _ t c. refused env t c) (copy_name-Started name s))
        λ _ t h.
          Post-bind (Through name mode) _ _ (mode_body name mode v t) _
            (Post-weaken (Through name mode) _ (λ _ u. IsCleaned u) _ (mode_body name mode v t)
              (λ _ _ o. o) (λ _ u c. refused env u c) (mode_body-Through name mode v t h))
            λ r u o. Through-IsOpened name mode r u o
