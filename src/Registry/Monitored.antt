-- ===== src/Registry/Monitored.antt =====
-- What a look of the thread that monitors the pids comes to.
use shmrpc.Prelude.{
  ℕ, ◌+◌, ◌≡◌, Bool, not, ◌&&◌, ◌||◌, List, [], ◌∷◌, refl, arith, if◌then◌else◌, ◌∙◌,
}
use shmrpc.Registry.Lists.{
  keep, member, remove, set_add, to_set, Distinct, member-keep, member-set_add, member-to_set,
  keep-Distinct, to_set-Distinct, set_add-Distinct,
}
use shmrpc.Registry.Sets.{count, count-Distinct, member-remove, remove-Distinct}
use shmrpc.Registry.Pids.{Pair, same_pair, Registry, get_created_exited_client_pids}
use shmrpc.Registry.Kept.{own, only, flip}
use shmrpc.Registry.Workers.{Threads, start_each, forget_each, monitor_pids}

start_each_lem :
    (cs : List Pair) (t : Threads) (d : Pair)
    → (member same_pair d (start_each cs t).threads
        ≡ (member same_pair d cs || member same_pair d t.threads))
      × (count same_pair d (start_each cs t).running
          ≡ count same_pair d cs + count same_pair d t.running)
start_each_lem [] t d = (refl, omega arith)
start_each_lem (c ∷ cs) t d =
    let next = record t { threads = set_add same_pair c t.threads; running = c ∷ t.running } in
    ground (arith, start_each_lem cs next d, member-set_add same_pair own only d c t.threads)

start_each-Distinct :
    (cs : List Pair) (t : Threads)
    → Distinct same_pair t.threads
    → Distinct same_pair (start_each cs t).threads
start_each-Distinct [] t h = h
start_each-Distinct (c ∷ cs) t h =
    start_each-Distinct cs _ (set_add-Distinct same_pair own only c t.threads h)

forget_each_lem :
    (cs : List Pair) (t : Threads) (d : Pair)
    → Distinct same_pair t.threads
    → (member same_pair d (forget_each cs t).threads
        ≡ (not (member same_pair d cs) && member same_pair d t.threads))
      × ((forget_each cs t).running ≡ t.running)
      × Distinct same_pair (forget_each cs t).threads
forget_each_lem [] t d h = (refl, refl, h)
forget_each_lem (c ∷ cs) t d h =
    let next = record t { threads = remove same_pair c t.threads } in
    let rest = forget_each_lem cs next d (remove-Distinct same_pair own only c t.threads h) in
    (
      ground (arith, rest.0, member-remove same_pair own only d c t.threads h, flip c d),
      rest.1,
      rest.2,
    )

-- Whether a pair is listed and its process is alive.
abbrev pub is_live : (ℕ → Bool) → Registry → Pair → Bool
is_live alive r c = alive c.0 && member same_pair c r.clients

live_lem :
    (alive : ℕ → Bool) (r : Registry) (threads : List Pair) (d : Pair)
    → (member same_pair d (get_created_exited_client_pids alive threads r).0
        ≡ (not (member same_pair d threads) && is_live alive r d))
      × (member same_pair d (get_created_exited_client_pids alive threads r).1
          ≡ (not (is_live alive r d) && member same_pair d threads))
live_lem alive r threads d =
    let clients = keep (λ c. alive c.0) r.clients in
    let live = to_set same_pair clients in
    let e =
      member-to_set same_pair own only d clients
      ∙ member-keep same_pair own only (λ c. alive c.0) d r.clients in
    (
      ground
          (arith, e, member-keep same_pair own only (λ c. not (member same_pair c threads)) d live),
      ground
          (arith, e, member-keep same_pair own only (λ c. not (member same_pair c live)) d threads),
    )

-- After a look at the list of the clients, the set of the threads has exactly the pairs that are listed
-- and alive, none of them twice. One worker has been started for each pair that is new to the set, and
-- none for any other.
pub monitor_pids_lem :
    (alive : ℕ → Bool) (r : Registry) (t : Threads)
    → Distinct same_pair t.threads
    → Distinct same_pair (monitor_pids alive r t).threads
      × ((c : Pair)
          → (member same_pair c (monitor_pids alive r t).threads ≡ is_live alive r c)
            × (count same_pair c (monitor_pids alive r t).running
                ≡ (if not (member same_pair c t.threads) && is_live alive r c then 1 else 0)
                  + count same_pair c t.running))
unfolding monitor_pids
monitor_pids_lem alive r t h =
    let found = get_created_exited_client_pids alive t.threads r in
    let started = start_each found.0 t in
    let distinct = start_each-Distinct found.0 t h in
    let once =
      keep-Distinct same_pair own only (λ c. not (member same_pair c t.threads)) _
        (to_set-Distinct same_pair own only (keep (λ c. alive c.0) r.clients)) in
    (
      (forget_each_lem found.1 started (0, 0) distinct).2,
      λ c.
          let (there, count_there) = start_each_lem found.0 t c in
          let (left, same, _) = forget_each_lem found.1 started c distinct in
          let (created, exited) = live_lem alive r t.threads c in
          (
            ground (arith, left, there, created, exited),
            rw same (
                ground
                  (arith, count_there, count-Distinct same_pair own only c found.0 once, created)),
          ),
    )
