-- ===== src/Registry/Steps.antt =====
-- A server, statement by statement: the thread that monitors, `_monitor_pids` and `SHMServer.monitor_pids`,
-- and the workers, `worker_thread_fn`. No lock is held over two statements of them; a statement that reads
-- or changes the set or a flag is one step.
use shmrpc.Prelude.{ℕ, suc, Bool, true, false, List, [], ◌∷◌, if◌then◌else◌}
use shmrpc.Machine.State.{update}
use shmrpc.Registry.Lists.{member, set_add}
use shmrpc.Registry.Pids.{Pair, same_pair, Registry, get_created_exited_client_pids}
use shmrpc.Registry.Workers.{discard}

-- Where a worker stands.
pub data Stage : Type 0 where
  opening : Stage  -- before `open_existing_resources`
  looping : Stage  -- before `(pid, qid) in self.SPIDThreads`
  listed : Stage  -- its pair was in the set; before the test of `shut_me_down`
  handling : Stage  -- before `handle_command`
  leaving : Stage  -- `shut_me_down` was set; before the `remove`
  removed : Stage  -- before `len(self.SPIDThreads)`
  counted : Bool → Stage  -- before the store of `shutdown_ok`
  returned : Stage

pub record Worker : Type 0 where
  pub pair : Pair
  pub stage : Stage

-- Where the thread that monitors stands.
pub data Look : Type 0 where
  resting : Look  -- before the test of `shut_me_down`
  looking : Look  -- before `get_created_exited_client_pids`
  adding : List Pair → List Pair → Look  -- with what is left of SCreated, and SExited
  starting : Pair → List Pair → List Pair → Look  -- the pair is added; before `start_new_thread`
  forgetting : List Pair → Look  -- with what is left of SExited

-- The workers are numbered in the order in which they are started.
pub record Server : Type 0 where
  pub threads : List Pair
  pub workers : ℕ → Worker
  pub count : ℕ
  pub monitor : Look
  pub shut_me_down : Bool
  pub shutdown_ok : Bool

-- A server that shuts down is let go of.
abbrev pub look_at : (ℕ → Bool) → Registry → Look → Server → Server
look_at alive r resting s = if s.shut_me_down then s else record s { monitor = looking }
look_at alive r looking s =
    let found = get_created_exited_client_pids alive s.threads r in
    record s { monitor = adding found.0 found.1 }
look_at alive r (adding [] exited) s = record s { monitor = forgetting exited }
look_at alive r (adding (c ∷ cs) exited) s = record s {
  threads = set_add same_pair c s.threads;
  monitor = starting c cs exited;
}
look_at alive r (starting c cs exited) s = record s {
  workers = update s.workers s.count (record { pair = c; stage = opening });
  count = suc s.count;
  monitor = adding cs exited;
}
look_at alive r (forgetting []) s = record s { monitor = resting }
look_at alive r (forgetting (c ∷ cs)) s = record s {
  threads = discard c s.threads;
  monitor = forgetting cs;
}

-- How `handle_command` ends: the worker goes on, returns because the lock was destroyed, or raises.
pub data Round : Type 0 where
  handled : Round
  was_destroyed : Round
  raised : Round

abbrev pub after_round : Round → Stage
after_round handled = looping
after_round was_destroyed = returned
after_round raised = returned

abbrev pub is_empty : List Pair → Bool
is_empty [] = true
is_empty (d ∷ ds) = false

abbrev pub at_stage : ℕ → Stage → Server → Server
at_stage k stage s = record s {
  workers = update s.workers k (record (s.workers k) { stage = stage });
}

-- A statement of worker `k`, which has the pair `c`; whether the lock and the map can be opened, and how
-- `handle_command` ends, where it comes to that.
abbrev pub work_at : ℕ → Pair → Bool → Round → Stage → Server → Server
work_at k c opened o opening s = at_stage k (if opened then looping else returned) s
work_at k c opened o looping s =
    at_stage k (if member same_pair c s.threads then listed else returned) s
work_at k c opened o listed s = at_stage k (if s.shut_me_down then leaving else handling) s
work_at k c opened o handling s = at_stage k (after_round o) s
work_at k c opened o leaving s = at_stage k removed (record s { threads = discard c s.threads })
work_at k c opened o removed s = at_stage k (counted (is_empty s.threads)) s
work_at k c opened o (counted b) s = at_stage k returned (record s { shutdown_ok = b })
work_at k c opened o returned s = s

pub data Action : Type 0 where
  look : (ℕ → Bool) → Registry → Action
  work : ℕ → Bool → Round → Action
  begin_shutdown : Action  -- the first statement of `shutdown`

unfoldable pub act : Action → Server → Server
act (look alive r) s = look_at alive r s.monitor s
act (work k opened o) s = work_at k (s.workers k).pair opened o (s.workers k).stage s
act begin_shutdown s = record s { shut_me_down = true }

unfoldable pub act_each : List Action → Server → Server
unfolding act
act_each [] s = s
act_each (a ∷ rest) s = act_each rest (act a s)
