-- ===== src/Examples/CleanupCases.antt =====
-- The theorems on `destroy` and `__del__` at a concrete object.
use shmrpc.Prelude.{◌≡◌}
use shmrpc.Machine.State.{State}
use shmrpc.Machine.Flow.{ok, err, semaphore_destroyed, final}
use shmrpc.Machine.Post.{Post}
use shmrpc.HybridLock.Object.{unlocked}
use shmrpc.HybridLock.Destroy.{destroy, del}
use shmrpc.HybridLock.CleanedOnce.{cleaned_once}
use shmrpc.HybridLock.Cleanup.{Ends, destroy-Ends, destroy_lem, Destroyed}
use shmrpc.Examples.Worlds.{calm, calm-IsQuiet, attached, attached-IsOpen}

abbrev open_lock : State
open_lock = attached 1 unlocked

cleaned_once_example :
    let t = final (destroy calm open_lock) in
    let u = final (del calm open_lock) in
    (destroy calm t ≡ err semaphore_destroyed t)
    × (del calm t ≡ ok tt t)
    × (destroy calm u ≡ err semaphore_destroyed u)
    × (del calm u ≡ ok tt u)
cleaned_once_example = cleaned_once calm open_lock

destroy-Ends_example : Ends (destroy calm open_lock) × Ends (del calm open_lock)
destroy-Ends_example = destroy-Ends calm open_lock "svc" 0 0 3 (attached-IsOpen 1 unlocked)

destroy_lem_example :
    Post (Destroyed open_lock "svc" 0 0 3 "svc") (λ _ _. ⊥) (destroy calm open_lock)
destroy_lem_example =
    destroy_lem calm open_lock "svc" 0 0 3 (attached-IsOpen 1 unlocked) calm-IsQuiet "svc"
