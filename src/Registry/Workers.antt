-- ===== src/Registry/Workers.antt =====
-- A whole look of `SHMServer.monitor_pids` at the list of the clients. What may come between its statements
-- is in Steps.
use shmrpc.Prelude.{ℕ, Bool, List, [], ◌∷◌}
use shmrpc.Registry.Lists.{remove, set_add}
use shmrpc.Registry.Pids.{Pair, same_pair, Registry, get_created_exited_client_pids}

-- `threads` is `SPIDThreads`; `running` has the pair of each worker that has been started.
pub record Threads : Type 0 where
  pub threads : List Pair
  pub running : List Pair

-- `try: s.remove(c)`, with `except KeyError: pass`.
abbrev pub discard : Pair → List Pair → List Pair
discard c s = remove same_pair c s

-- `for pid, qid in SCreated: …`
abbrev pub start_each : List Pair → Threads → Threads
start_each [] t = t
start_each (c ∷ cs) t =
    start_each cs (record t { threads = set_add same_pair c t.threads; running = c ∷ t.running })

-- `for pid, qid in SExited: …`
abbrev pub forget_each : List Pair → Threads → Threads
forget_each [] t = t
forget_each (c ∷ cs) t = forget_each cs (record t { threads = discard c t.threads })

unfoldable pub monitor_pids : (ℕ → Bool) → Registry → Threads → Threads
monitor_pids alive r t =
    let found = get_created_exited_client_pids alive t.threads r in
    forget_each found.1 (start_each found.0 t)
