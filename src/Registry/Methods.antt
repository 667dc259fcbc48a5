-- ===== src/Registry/Methods.antt =====
-- The methods of `_SHMResourceManager`, call by call. `lock_fn` holds the lock of the manager from `_decode`
-- to `_encode`; `create_resources`, `create_pid_mmap`, `get_lock` and, where `SHMClient.__del__` calls it,
-- `unlink_resources` are not under it, and may come in between. A method may be cut off at any place, by
-- an exception or the end of its process; `_encode` is one step, whose parts are in Store. The constructor of
-- a manager is left out: it writes empty lists where the page holds none, and unlocks the lock where the pid
-- in its page is 0 or has ended.
use shmrpc.Prelude.{ℕ, ◌==◌, Bool, true, false, not, ◌&&◌, ◌||◌, List, [], ◌∷◌, Option, none, some}
use shmrpc.Registry.Lists.{keep, remove_each, append_new}
use shmrpc.Registry.Pids.{Pair, same_pair}

abbrev pub same_pid : ℕ → ℕ → Bool
same_pid a b = a == b

-- The names that a pair may have bound.
pub data Kind : Type 0 where
  lock : Kind
  map : Kind

abbrev pub same_kind : Kind → Kind → Bool
same_kind lock lock = true
same_kind map map = true
same_kind _ _ = false

abbrev pub Name : Type 0
Name = Kind × Pair

abbrev pub same_name : Name → Name → Bool
same_name (k, c) (l, d) = same_kind k l && same_pair c d

-- `LServerPIDs` and `LClientPIDs`
pub record Lists : Type 0 where
  pub servers : List ℕ
  pub clients : List Pair

-- What a method that holds the lock has still to destroy and to unlink, and the lists that it will
-- encode.
pub record Work : Type 0 where
  pub drops : List Name
  pub result : Lists

pub record Manager : Type 0 where
  pub lists : Lists
  pub bound : Name → Bool
  pub work : Option Work

-- `unlink_resources` of a list of pairs.
abbrev pub drops_of : List Pair → List Name
drops_of [] = []
drops_of (c ∷ cs) = (lock, c) ∷ (map, c) ∷ drops_of cs

-- The methods under `lock_fn` that change the lists. `is_pid_still_alive` is asked in the first.
pub data Method : Type 0 where
  check_for_missing_pids : (ℕ → Bool) → Method
  add_server_pid : ℕ → Method
  del_server_pid : ℕ → Method
  reset_all_server_pids : Method
  add_client_pid_qid : Pair → Method
  del_client_pid_qid : Pair → Method
  reset_all_client_pids : Method

abbrev pub planned : Method → Lists → Work
planned (check_for_missing_pids alive) l = record {
  drops = drops_of (keep (λ c. not (alive c.0)) l.clients);
  result = record { servers = keep alive l.servers; clients = keep (λ c. alive c.0) l.clients };
}
planned (add_server_pid pid) l = record {
  drops = [];
  result = record l { servers = append_new same_pid pid l.servers };
}
planned (del_server_pid pid) l = record {
  drops = [];
  result = record l { servers = remove_each same_pid pid l.servers };
}
planned reset_all_server_pids l = record { drops = []; result = record l { servers = [] } }
planned (add_client_pid_qid c) l = record {
  drops = [];
  result = record l { clients = append_new same_pair c l.clients };
}
planned (del_client_pid_qid c) l = record {
  drops = drops_of (c ∷ []);
  result = record l { clients = remove_each same_pair c l.clients };
}
planned reset_all_client_pids l = record {
  drops = drops_of l.clients;
  result = record l { clients = [] };
}

-- `create` is `create_pid_mmap` or `get_lock`, by `create_resources` or a resize, and `drop` half of
-- `unlink_resources`. The other four are those of a method under `lock_fn`: the lock and `_decode`; the
-- next half of `unlink_resources`; `_encode`; and the end without it.
pub data Event : Type 0 where
  create : Name → Event
  drop : Name → Event
  begin : Method → Event
  drop_next : Event
  encode : Event
  give_up : Event

abbrev pub bind : (Name → Bool) → Name → Name → Bool
bind f a b = same_name a b || f b

abbrev pub unbind : (Name → Bool) → Name → Name → Bool
unbind f a b = not (same_name a b) && f b

abbrev pub drop_head : Work → List Name → Manager → Manager
drop_head w [] m = m
drop_head w (a ∷ drops) m = record m {
  bound = unbind m.bound a;
  work = some (record w { drops = drops });
}

abbrev pub encoded : Work → List Name → Manager → Manager
encoded w [] m = record m { lists = w.result; work = none }
encoded w (a ∷ drops) m = m

abbrev pub step_in : Event → Option Work → Manager → Manager
step_in (create a) o m = record m { bound = bind m.bound a }
step_in (drop a) o m = record m { bound = unbind m.bound a }
step_in (begin e) none m = record m { work = some (planned e m.lists) }
step_in (begin e) (some w) m = m
step_in drop_next none m = m
step_in drop_next (some w) m = drop_head w w.drops m
step_in encode none m = m
step_in encode (some w) m = encoded w w.drops m
step_in give_up o m = record m { work = none }

unfoldable pub step : Event → Manager → Manager
step e m = step_in e m.work m

-- `[[], []]`, and no names.
abbrev pub new_manager : Manager
new_manager = record {
  lists = record { servers = []; clients = [] };
  bound = λ a. false;
  work = none;
}

-- The newest first.
unfoldable pub history : List Event → Manager
unfolding step
history [] = new_manager
history (e ∷ es) = step e (history es)
