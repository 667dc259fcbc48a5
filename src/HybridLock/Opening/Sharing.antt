-- ===== src/HybridLock/Opening/Sharing.antt =====
-- Several objects of one name, one after the other: sharing, retiring, overwriting.
use shmrpc.Prelude.{ℕ, String, ◌≤◌, ◌<◌, ◌≡◌, ℤ, pos, to_char, ◌⊎◌, some, false, str_eq_iff, arith}
use shmrpc.Machine.State.{State, Env, sem_value_max}
use shmrpc.Machine.Flow.{no_such_semaphore, semaphore_exists, semaphore_destroyed}
use shmrpc.Machine.Post.{Post, Post-weaken}
use shmrpc.HybridLock.Object.{
  connect_to_existing_mode, create_new_overwrite_mode, is_destroyed, destroyed,
}
use shmrpc.HybridLock.Create.{cinit}
use shmrpc.HybridLock.Destroy.{destroy}
use shmrpc.HybridLock.Progress.{IsQuiet}
use shmrpc.HybridLock.Cleanup.{IsOpen, destroy_lem}
use shmrpc.HybridLock.Opening.Overwrite.{Connected}
use shmrpc.HybridLock.Opening.Refinement.{cinit-refines}

module _ (env : Env) (quiet : IsQuiet env) (name : String) (n : ℕ) (small : n ≤ sem_value_max) where
  connect_same :
      (t u : State) (i p : ℕ)
      → Connected name i p t
      → is_destroyed (t.shared.page_char p) ≡ false
      → u.shared ≡ t.shared
      → Post
          (λ _ w.
            (w.shared ≡ t.shared)
            × (w.self.semaphore ≡ t.self.semaphore)
            × (w.self.spin_lock_char ≡ t.self.spin_lock_char))
          (λ _ _. ⊥)
          (cinit env name connect_to_existing_mode (pos n) u)
  connect_same t u i p c alive e =
      Post-weaken _ _ _ _ (cinit env name connect_to_existing_mode (pos n) u)
        (λ r w (a, b, (j, q, d, g)). (
          ground (arith, b, c, alive, e),
          ground (arith, b, c, d, alive, e),
          ground (arith, b, c, d, alive, e),
        ))
        (λ x w h. ground (arith, h, c, alive, e))
        (cinit-refines env quiet name n small connect_to_existing_mode u)

  -- If no call fails: when the constructor has returned in any mode, a second object that is connected
  -- to the name has the same semaphore and the same page, and connecting changes nothing shared.
  pub create-connect :
      (mode : ℤ) (s : State)
      → Post
          (λ _ t.
            (u : State)
            → u.shared ≡ t.shared
            → Post
                (λ _ w.
                  (w.shared ≡ t.shared)
                  × (w.self.semaphore ≡ t.self.semaphore)
                  × (w.self.spin_lock_char ≡ t.self.spin_lock_char))
                (λ _ _. ⊥)
                (cinit env name connect_to_existing_mode (pos n) u))
          (λ _ _. Unit)
          (cinit env name mode (pos n) s)
  create-connect mode s =
      Post-weaken _ _ _ _ (cinit env name mode (pos n) s)
        (λ r t (a, b, (j, q, d, g)) u e. connect_same t u j q d g e) (λ _ _ _. tt)
        (cinit-refines env quiet name n small mode s)

  -- If no call fails: after `destroy` of an open object, connecting to its name raises
  -- NoSuchSemaphoreException and changes nothing shared.
  pub destroy-connect :
      (s : State) (i p fd : ℕ)
      → IsOpen s name i p fd
      → Post
          (λ _ t.
            (u : State)
            → u.shared ≡ t.shared
            → Post
                (λ _ _. ⊥)
                (λ e w. (e ≡ no_such_semaphore name) × (w.shared ≡ t.shared))
                (cinit env name connect_to_existing_mode (pos n) u))
          (λ _ _. ⊥)
          (destroy env s)
  destroy-connect s i p fd o =
      Post-weaken _ _ _ _ (destroy env s)
        (λ r t d u e.
          Post-weaken _ _ _ _ (cinit env name connect_to_existing_mode (pos n) u)
            (λ x w h. ground (arith, str_eq_iff name name, h.1, d.1, e))
            (λ x w h. (
              ground (arith, str_eq_iff name name, h, d.1, e),
              ground (arith, str_eq_iff name name, h, d.1, e),
            ))
            (cinit-refines env quiet name n small connect_to_existing_mode u))
        (λ _ _ z. z) (destroy_lem env s name i p fd o quiet name)

  -- If no call fails, the overwriting mode on a name whose two parts are bound ends in one of three
  -- ways. It returns with a new semaphore of the given value and a new page under the name, and the
  -- old page carries the mark. It raises SemaphoreExistsException, where the old page carried the
  -- mark before; nothing shared has changed then. It raises SemaphoreDestroyedException, where the
  -- initial value is the mark.
  pub overwrite_lem :
      (s : State) (i p : ℕ)
      → s.shared.sem_name name ≡ some i
      → s.shared.shm_name name ≡ some p
      → p < s.shared.shm_count
      → i < s.shared.sem_count
      → Post
          (λ r t.
            (r ≡ pos 0)
            × (t.shared.page_char p ≡ destroyed)
            × (t.shared.sem_name name ≡ some s.shared.sem_count)
            × (t.shared.sem_value s.shared.sem_count ≡ n)
            × (t.shared.sem_value i ≡ s.shared.sem_value i)
            × (t.shared.shm_name name ≡ some s.shared.shm_count))
          (λ e t.
            ((e ≡ semaphore_exists name)
              × (s.shared.page_char p ≡ destroyed)
              × (t.shared ≡ s.shared))
            ⊎ ((e ≡ semaphore_destroyed) × (to_char (pos n) ≡ destroyed)))
          (cinit env name create_new_overwrite_mode (pos n) s)
  overwrite_lem s i p hi hp lp li =
      Post-weaken _ _ _ _ (cinit env name create_new_overwrite_mode (pos n) s)
        (λ r t h. ground (arith, str_eq_iff name name, h.1, hi, hp, lp, li))
        (λ e t h. ground (arith, str_eq_iff name name, h, hi, hp, lp, li))
        (cinit-refines env quiet name n small create_new_overwrite_mode s)
