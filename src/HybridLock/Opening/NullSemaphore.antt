-- ===== src/HybridLock/Opening/NullSemaphore.antt =====
-- The constructor where the second `sem_open` of the mode CONNECT_OR_CREATE fails.
use shmrpc.Prelude.{ℕ, String, ◌+◌, ◌^◌, ◌<◌, ◌≡◌, pos, negsuc, none, arith}
use shmrpc.Machine.State.{State, Env, Call, einval}
use shmrpc.Machine.Flow.{crash, null_semaphore, semaphore_destroyed}
use shmrpc.Machine.Post.{Post}
use shmrpc.HybridLock.Object.{connect_or_create_mode}
use shmrpc.HybridLock.Create.{cinit, cinit_with, connect_or_create}
use shmrpc.HybridLock.Value.{get_value}
use shmrpc.HybridLock.Progress.{IsQuiet}
use shmrpc.HybridLock.Opening.Attach.{init_mmap_lem}
use shmrpc.HybridLock.Opening.Overwrite.{named, copy_name_lem}

module _ (env : Env) (quiet : IsQuiet env) (name : String) where
  -- The state behind the two calls of `sem_open`, both of which have failed.
  unopened : State → State
  unopened s = record s {
    self = record s.self { semaphore = none };
    errno = einval;
    tick = s.tick + 1 + 1;
  }

  connect_or_create-none :
      (k : ℕ) (s : State)
      → k < 2 ^ 31
      → s.shared.sem_name name ≡ none
      → Post
          (λ r t.
            (r ≡ pos 0) × (t.self.semaphore ≡ none) × (get_value env t ≡ crash null_semaphore t))
          (λ e t. e ≡ semaphore_destroyed)
          (connect_or_create env name (negsuc k) s)
  unfolding connect_or_create get_value unopened
  connect_or_create-none k s int free = ground (
    arith,
    quiet.faultless s.tick Call.sem_open_existing,
    quiet.faultless (s.tick + 1) Call.sem_open_new,
    init_mmap_lem env quiet name (negsuc k) (unopened s),
  )

  -- With a negative initial value and a name that no semaphore has, no call fails but `sem_open`, which
  -- refuses the value. The mode CONNECT_OR_CREATE then returns 0 all the same, unless the page
  -- carries the mark. The semaphore of the object is NULL, and `get_value` hands it to
  -- `sem_getvalue`.
  pub cinit-null :
      (k : ℕ) (s : State)
      → k < 2 ^ 31
      → s.shared.sem_name name ≡ none
      → Post
          (λ r t.
            (r ≡ pos 0) × (t.self.semaphore ≡ none) × (get_value env t ≡ crash null_semaphore t))
          (λ e t. e ≡ semaphore_destroyed)
          (cinit env name connect_or_create_mode (negsuc k) s)
  unfolding cinit cinit_with get_value
  cinit-null k s int free =
      rw (copy_name_lem env quiet name s)
        (ground (arith, connect_or_create-none k (named name s) int free))
