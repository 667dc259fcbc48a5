-- ===== src/Registry/Pids.antt =====
-- `_SHMResourceManager`: the pids of the servers, the pairs (pid, qid) of the clients, and which pairs have
-- a lock and a memory map; `check_for_missing_pids` and what it calls, where no call fails and nothing
-- comes between. Methods has all methods, with what may come between their calls.
use shmrpc.Prelude.{ℕ, ◌==◌, Bool, not, ◌&&◌, List, [], ◌∷◌, if◌then◌else◌}
use shmrpc.Registry.Lists.{keep, to_set, difference}

abbrev pub Pair : Type 0
Pair = ℕ × ℕ

abbrev pub same_pair : Pair → Pair → Bool
same_pair (p, q) (r, s) = p == r && q == s

-- `locks` and `maps` say which names are bound.
pub record Registry : Type 0 where
  pub servers : List ℕ
  pub clients : List Pair
  pub locks : Pair → Bool
  pub maps : Pair → Bool

abbrev pub unbind : (Pair → Bool) → Pair → Pair → Bool
unbind names c d = not (same_pair c d) && names d

-- A lock or a map that is not there is passed over.
unfoldable pub unlink_resources : Pair → Registry → Registry
unlink_resources c r = record r { locks = unbind r.locks c; maps = unbind r.maps c }

-- A list of pairs, one behind the other.
unfoldable pub unlink_each : List Pair → Registry → Registry
unfolding unlink_resources
unlink_each [] r = r
unlink_each (c ∷ cs) r = unlink_each cs (unlink_resources c r)

-- `alive` is `is_pid_still_alive`, which asks psutil.
module _ (alive : ℕ → Bool) where
  -- The loop over the clients, with `n_LClientPIDs`.
  unfoldable pub check_clients : List Pair → Registry → List Pair × Registry
  unfolding unlink_resources
  check_clients [] r = ([], r)
  check_clients (c ∷ cs) r =
      let rest = check_clients cs (if alive c.0 then r else unlink_resources c r) in
      (if alive c.0 then c ∷ rest.0 else rest.0, rest.1)

  unfoldable pub check_for_missing_pids : Registry → Registry
  unfolding check_clients
  check_for_missing_pids r =
      let checked = check_clients r.clients r in
      record checked.1 { servers = keep alive r.servers; clients = checked.0 }

  abbrev pub get_created_exited_client_pids : List Pair → Registry → List Pair × List Pair
  get_created_exited_client_pids threads r =
      let live = to_set same_pair (keep (λ c. alive c.0) r.clients) in
      (difference same_pair live threads, difference same_pair threads live)
