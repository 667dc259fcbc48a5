-- ===== src/Examples/OpeningCases.antt =====
-- The theorems on the constructor at concrete inputs.
use shmrpc.Prelude.{◌==◌, if◌then◌else◌, pos, negsuc, ◌≡◌, ◌⊎◌, to_char, some, none, arith, refl}
use shmrpc.Machine.State.{State, Env}
use shmrpc.Machine.Flow.{
  ok, err, crash, null_semaphore, no_such_semaphore, semaphore_exists, semaphore_destroyed,
}
use shmrpc.Machine.Post.{Post}
use shmrpc.HybridLock.Object.{
  connect_or_create_mode, connect_to_existing_mode, create_new_overwrite_mode, unlocked, destroyed,
}
use shmrpc.HybridLock.Create.{cinit}
use shmrpc.HybridLock.Destroy.{destroy, del}
use shmrpc.HybridLock.Value.{get_value}
use shmrpc.HybridLock.Opening.Spec.{opening}
use shmrpc.HybridLock.Opening.Modes.{Raises}
use shmrpc.HybridLock.Opening.Refinement.{Constructed, cinit-refines}
use shmrpc.HybridLock.Opening.Sharing.{create-connect, destroy-connect, overwrite_lem}
use shmrpc.HybridLock.Opening.NullSemaphore.{cinit-null}
use shmrpc.HybridLock.Opening.Failing.{IsOpened, HasNone, cinit-Ends}
use shmrpc.Examples.Worlds.{calm, calm-IsQuiet, start, attached, attached-IsOpen}

abbrev in_use : State
in_use = attached 0 unlocked

cinit-refines_example :
    let o = opening create_new_overwrite_mode "svc" 1 in_use.shared in
    Post
      (Constructed "svc" o)
      (Raises o)
      (cinit calm "svc" create_new_overwrite_mode (pos 1) in_use)
cinit-refines_example =
    cinit-refines calm calm-IsQuiet "svc" 1 (omega arith) create_new_overwrite_mode in_use

create-connect_example :
    Post
      (λ _ t.
        (u : State)
        → u.shared ≡ t.shared
        → Post
            (λ _ w.
              (w.shared ≡ t.shared)
              × (w.self.semaphore ≡ t.self.semaphore)
              × (w.self.spin_lock_char ≡ t.self.spin_lock_char))
            (λ _ _. ⊥)
            (cinit calm "svc" connect_to_existing_mode (pos 1) u))
      (λ _ _. Unit)
      (cinit calm "svc" connect_or_create_mode (pos 1) start)
create-connect_example =
    create-connect calm calm-IsQuiet "svc" 1 (omega arith) connect_or_create_mode start

destroy-connect_example :
    Post
      (λ _ t.
        (u : State)
        → u.shared ≡ t.shared
        → Post
            (λ _ _. ⊥)
            (λ e w. (e ≡ no_such_semaphore "svc") × (w.shared ≡ t.shared))
            (cinit calm "svc" connect_to_existing_mode (pos 1) u))
      (λ _ _. ⊥)
      (destroy calm in_use)
destroy-connect_example =
    destroy-connect calm calm-IsQuiet "svc" 1 (omega arith) in_use 0 0 3
      (attached-IsOpen 0 unlocked)

overwrite_lem_example :
    Post
      (λ r t.
        (r ≡ pos 0)
        × (t.shared.page_char 0 ≡ destroyed)
        × (t.shared.sem_name "svc" ≡ some 1)
        × (t.shared.sem_value 1 ≡ 1)
        × (t.shared.sem_value 0 ≡ 0)
        × (t.shared.shm_name "svc" ≡ some 1))
      (λ e t.
        ((e ≡ semaphore_exists "svc") × (unlocked ≡ destroyed) × (t.shared ≡ in_use.shared))
        ⊎ ((e ≡ semaphore_destroyed) × (to_char (pos 1) ≡ destroyed)))
      (cinit calm "svc" create_new_overwrite_mode (pos 1) in_use)
overwrite_lem_example =
    overwrite_lem calm calm-IsQuiet "svc" 1 (omega arith) in_use 0 0 refl refl (omega arith)
      (omega arith)

cinit-null_example :
    Post
      (λ r t. (r ≡ pos 0) × (t.self.semaphore ≡ none) × (get_value calm t ≡ crash null_semaphore t))
      (λ e t. e ≡ semaphore_destroyed)
      (cinit calm "svc" connect_or_create_mode (negsuc 0) start)
cinit-null_example = cinit-null calm calm-IsQuiet "svc" 0 start (omega arith) refl

-- The fourth call fails.
abbrev short_of_memory : Env
short_of_memory = record calm { fault = λ n c. if n == 3 then some 12 else none }

cinit-Ends_example :
    Post
      (λ r t.
        IsOpened "svc" r t
        ⊎ ((create_new_overwrite_mode ≡ connect_or_create_mode) × HasNone "svc" r t))
      (λ _ t.
        (destroy short_of_memory t ≡ err semaphore_destroyed t) × (del short_of_memory t ≡ ok tt t))
      (cinit short_of_memory "svc" create_new_overwrite_mode (pos 1) in_use)
cinit-Ends_example = cinit-Ends short_of_memory "svc" create_new_overwrite_mode (pos 1) in_use
