-- ===== src/HybridLock/Opening/Overwrite.antt =====
-- The overwriting mode of the constructor, when no call fails.
use shmrpc.Prelude.{
  ℕ, String, ◌⊎◌, ◌+◌, ◌≤◌, ◌≡◌, ℤ, pos, pos_part, none, some, true, str_eq_iff, arith, sym,
}
use shmrpc.Machine.State.{Shared, State, HybridLock, Call, Env, zeroed, live, sem_value_max, update}
use shmrpc.Machine.Flow.{
  M, Exc, Flow, pure, ok, err, blocks, crash, semaphore_destroyed, no_such_semaphore, catch,
  and_then,
}
use shmrpc.Machine.Calls.{close, sem_close}
use shmrpc.Machine.Post.{Post, Post-bind, Post-bind_quiet, Post-weaken}
use shmrpc.HybridLock.Object.{back_to, destroyed, connect_to_existing_mode}
use shmrpc.HybridLock.Destroy.{destroy, unlink_names, finish, forgive, close_handles}
use shmrpc.HybridLock.Create.{
  copy_name, cinit_with, destroy_existing, try_destroy, create_again, create_exclusive,
  create_overwrite, ignore_missing,
}
use shmrpc.HybridLock.Progress.{IsQuiet}
use shmrpc.HybridLock.CleanedOnce.{dead, destroy-steps}
use shmrpc.HybridLock.Cleanup.{IsOpen}
use shmrpc.HybridLock.Opening.Spec
use shmrpc.HybridLock.Opening.Spec.{Outcome, page_named, with_page, cleared, retire}
use shmrpc.HybridLock.Opening.Modes.{
  Opens, Raises, sem_named, connect_to_existing_lem, create_exclusive_lem,
}

-- The state behind the allocation of the name.
abbrev pub named : String → State → State
named name s = record s {
  self = record s.self { cleaned_up = true; sem_loc = live name };
  tick = s.tick + 1;
}

abbrev pub Bound : String → State → (i p : ℕ) → Type 0
Bound name s i p = (s.shared.sem_name name ≡ some i) × (s.shared.shm_name name ≡ some p)

-- An object that is open under the name, which is bound to what it uses.
abbrev pub Connected : String → (i p : ℕ) → State → Type 0
Connected name i p t = IsOpen t name i p (pos_part t.self.shm_fd) × Bound name t i p

module _ (env : Env) (quiet : IsQuiet env) (name : String) where
  pub copy_name_lem : (s : State) → copy_name env name s ≡ ok tt (named name s)
  unfolding copy_name
  copy_name_lem s = ground (arith, quiet.faultless s.tick Call.malloc)

  -- The names are gone, and the mark is all that is missing from the page.
  abbrev Unlinked : State → ℕ → State → Type 0
  Unlinked s p t =
      (record t.shared { page_char = update t.shared.page_char p destroyed }
        ≡ retire name p s.shared)
      × (t.self ≡ record s.self { cleaned_up = true })
      × (t.sem_refs ≡ s.sem_refs)
      × (t.fds ≡ s.fds)
      × (t.tick ≡ s.tick + 1 + 1)

  unlink_names-Bound :
      (s : State) (i p fd : ℕ)
      → IsOpen s name i p fd
      → Bound name s i p
      → Post (λ _ t. Unlinked s p t) (λ _ _. ⊥) (unlink_names env (dead s))
  unfolding unlink_names forgive
  unlink_names-Bound s i p fd o b =
      ground (
        arith,
        quiet.faultless s.tick Call.shm_unlink,
        quiet.faultless (s.tick + 1) Call.sem_unlink,
      )

  finish-Bound :
      (s t : State) (i p fd : ℕ)
      → IsOpen s name i p fd
      → Unlinked s p t
      → Post (λ _ u. u.shared ≡ retire name p s.shared) (λ _ _. ⊥) (finish env t)
  unfolding finish close_handles close sem_close
  finish-Bound s t i p fd o u = ground (
    arith,
    quiet.faultless (s.tick + 1 + 1) Call.close,
    quiet.faultless (s.tick + 1 + 1 + 1) Call.sem_close,
  )

  destroy-Bound :
      (s : State) (i p fd : ℕ)
      → IsOpen s name i p fd
      → Bound name s i p
      → Post (λ _ u. u.shared ≡ retire name p s.shared) (λ _ _. ⊥) (destroy env s)
  destroy-Bound s i p fd o b = rw (destroy-steps env s o.uncleaned) (
      Post-bind_quiet (λ _ t. Unlinked s p t) _ _ (unlink_names env (dead s)) _
        (unlink_names-Bound s i p fd o b) λ _ t u. finish-Bound s t i p fd o u)

  connect_lem :
      (f : String → ℤ → M ℤ) (v : ℤ) (s : State)
      → Post
          (λ r t.
            (r ≡ pos 0)
            × (Spec.connect_to_existing name s.shared ≡ (none, t.shared))
            × Connected name (sem_named name s.shared) (page_named name s.shared) t)
          (Raises (Spec.connect_to_existing name s.shared))
          (cinit_with env f name connect_to_existing_mode v s)
  unfolding cinit_with
  connect_lem f v s =
      rw (copy_name_lem s) (
        ground (arith, str_eq_iff name name, connect_to_existing_lem env quiet name (named name s)))

  -- What the overwriting mode swallows.
  abbrev Ignored : Exc → Type 0
  Ignored e = (e ≡ no_such_semaphore name) ⊎ (e ≡ semaphore_destroyed)

  abbrev Cleared : State → State → Type 0
  Cleared s t = t.shared ≡ cleared name s.shared

  abbrev Found : State → ℤ → State → Type 0
  Found s r t =
      (r ≡ pos 0)
      × (Spec.connect_to_existing name s.shared ≡ (none, t.shared))
      × Connected name (sem_named name s.shared) (page_named name s.shared) t

  connect-Ignored :
      (v : ℤ) (s : State)
      → Post
          (Found s)
          (λ e t. Ignored e × Cleared s t)
          (cinit_with env (λ _ _. pure (pos 0)) name connect_to_existing_mode v s)
  connect-Ignored v s =
      Post-weaken (Found s) (Found s) (Raises (Spec.connect_to_existing name s.shared)) _
        (cinit_with env (λ _ _. pure (pos 0)) name connect_to_existing_mode v s) (λ _ _ q. q)
        (λ e t q. ground (arith, q)) (connect_lem (λ _ _. pure (pos 0)) v s)

  destroy-Found :
      (s t : State) (r : ℤ)
      → Found s r t
      → Post (λ _ u. Cleared s u) (λ e u. Ignored e × Cleared s u) (destroy env t)
  destroy-Found s t r q =
      Post-weaken (λ _ u. u.shared ≡ retire name (page_named name s.shared) t.shared) _ (λ _ _. ⊥) _
        (destroy env t) (λ _ u h. ground (arith, q, h)) (λ _ _ z. absurd z)
        (destroy-Bound t (sem_named name s.shared) (page_named name s.shared)
          (pos_part t.self.shm_fd) q.2.0 q.2.1)

  swallowed :
      (h : HybridLock) (sh : Shared) (r : Flow ℤ)
      → Post (λ _ t. t.shared ≡ sh) (λ e t. Ignored e × (t.shared ≡ sh)) r
      → Post
          (λ _ t. (t.shared ≡ sh) × (t.self ≡ h))
          (λ _ _. ⊥)
          (catch (and_then (back_to h r) (λ _. pure tt)) ignore_missing)
  unfolding ignore_missing
  swallowed h sh (ok v t) q = ground (arith, q)
  swallowed h sh (err e t) q = ground (arith, q)
  swallowed h sh (blocks t) q = q
  swallowed h sh (crash c t) q = q

  pub try_destroy_lem :
      (v : ℤ) (s : State)
      → Post
          (λ _ t. (t.shared ≡ cleared name s.shared) × (t.self ≡ s.self))
          (λ _ _. ⊥)
          (try_destroy env name v s)
  unfolding try_destroy destroy_existing
  try_destroy_lem v s = swallowed s.self (cleared name s.shared) _ (
      Post-bind (Found (record s { self = zeroed })) (λ _ u. Cleared s u)
        (λ e u. Ignored e × Cleared s u)
        (cinit_with env (λ _ _. pure (pos 0)) name connect_to_existing_mode v
          (record s { self = zeroed }))
        _ (connect-Ignored v (record s { self = zeroed }))
        λ r t q. destroy-Found (record s { self = zeroed }) t r q)

  pub create_overwrite_lem :
      (n : ℕ) (s : State)
      → n ≤ sem_value_max
      → Post
          (Opens
            (Spec.create_overwrite name n s.shared)
            (sem_named name (cleared name s.shared))
            (page_named name (cleared name s.shared))
            s)
          (Raises (Spec.create_overwrite name n s.shared))
          (create_overwrite env name (pos n) s)
  unfolding create_overwrite create_again create_exclusive
  create_overwrite_lem n s small =
      Post-bind_quiet (λ _ t. (t.shared ≡ cleared name s.shared) × (t.self ≡ s.self)) _ _
        (try_destroy env name (pos n) s) _ (try_destroy_lem (pos n) s)
        λ _ t q.
          Post-weaken _ _ _ _ (create_again env name (pos n) t)
            (λ r u h. rw (sym q.0) (h.0, h.1, (ground (arith, h.2.0, q.1), h.2.1, h.2.2)))
            (λ e u h. rw (sym q.0) h) (create_exclusive_lem env quiet name t n small)
