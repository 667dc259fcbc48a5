-- ===== src/Examples/RegistryCases.antt =====
-- The lists of pids and the threads of a server at concrete inputs.
use shmrpc.Prelude.{
  ℕ, ◌+◌, ◌==◌, ◌&&◌, ◌||◌, not, ◌≡◌, List, [], ◌∷◌, some, Bool, true, false, refl, arith, inr,
  if◌then◌else◌,
}
use shmrpc.Protocol.Bytes.{Bytes}
use shmrpc.Registry.Lists.{member, remove_loop, Distinct}
use shmrpc.Registry.Sets.{count}
use shmrpc.Registry.Pids.{Pair, same_pair, Registry, check_for_missing_pids}
use shmrpc.Registry.Kept.{Kept, check_for_missing_pids_lem}
use shmrpc.Registry.Methods.{
  same_pid, Name, lock, map, add_server_pid, add_client_pid_qid, del_client_pid_qid, Event, create,
  begin, drop_next, encode, step, history,
}
use shmrpc.Registry.Strays.{is_stray, history-Tracked}
use shmrpc.Registry.Workers.{Threads, monitor_pids}
use shmrpc.Registry.Monitored.{is_live, monitor_pids_lem}
use shmrpc.Registry.Steps.{
  Worker, Stage, looping, returned, resting, Server, handled, is_empty, Action, look, work, act,
  act_each,
}
use shmrpc.Registry.Shutdown.{Deserted, shutdown-waits}
use shmrpc.Registry.Told.{Sound, is_in, shutdown_ok_lem}
use shmrpc.Registry.Store.{gives, decode, encode as encode_lists, change_lists}
use shmrpc.Registry.Stored.{page_with, Leaves, change_lists_lem}

abbrev alive : ℕ → Bool
alive pid = not (pid == 7)

-- The newest first: a client connects and is taken off the list, and a resize of its server comes after that.
abbrev events : List Event
events =
    create (map, (4, 1))
    ∷ encode
    ∷ drop_next
    ∷ drop_next
    ∷ begin (del_client_pid_qid (4, 1))
    ∷ encode
    ∷ begin (add_client_pid_qid (4, 1))
    ∷ create (lock, (4, 1))
    ∷ create (map, (4, 1))
    ∷ encode
    ∷ begin (add_server_pid 7)
    ∷ []

history-Tracked_example :
    Distinct same_pid (history events).lists.servers
    × Distinct same_pair (history events).lists.clients
    × ((a : Name)
        → (history events).bound a ≡ true
        → (member same_pair a.1 (history events).lists.clients || is_stray events a) ≡ true)
history-Tracked_example = history-Tracked events

-- The map is left behind then.
left_behind :
    ((history events).bound (map, (4, 1)) ≡ true)
    × ((history events).lists.clients ≡ [])
    × (is_stray events (map, (4, 1)) ≡ true)
    × ((history events).bound (lock, (4, 1)) ≡ false)
unfolding history is_stray step remove_loop
left_behind = (refl, refl, refl, refl)

abbrev two_clients : Registry
two_clients = record {
  servers = 7 ∷ [];
  clients = (4, 2) ∷ (7, 1) ∷ [];
  locks = λ c. member same_pair c ((4, 2) ∷ (7, 1) ∷ []);
  maps = λ c. member same_pair c ((4, 2) ∷ (7, 1) ∷ []);
}

two_clients-Kept : Kept two_clients
two_clients-Kept = record {
  servers = (refl, tt);
  clients = (refl, (refl, tt));
  locks = λ c e. e;
  maps = λ c e. e;
}

check_for_missing_pids_example :
    ((check_for_missing_pids alive two_clients).servers ≡ [])
    × ((check_for_missing_pids alive two_clients).clients ≡ (4, 2) ∷ [])
    × ((c : Pair)
        → ((check_for_missing_pids alive two_clients).locks c ≡ (alive c.0 && two_clients.locks c))
          × ((check_for_missing_pids alive two_clients).maps c ≡ (alive c.0 && two_clients.maps c)))
check_for_missing_pids_example = check_for_missing_pids_lem alive two_clients two_clients-Kept

abbrev two_threads : Threads
two_threads = record { threads = (7, 1) ∷ (4, 1) ∷ []; running = (4, 1) ∷ (7, 1) ∷ [] }

abbrev two_alive : Registry
two_alive = record {
  servers = [];
  clients = (7, 1) ∷ (4, 1) ∷ (4, 3) ∷ [];
  locks = λ _. true;
  maps = λ _. true;
}

monitor_pids_example :
    Distinct same_pair (monitor_pids alive two_alive two_threads).threads
    × ((c : Pair)
        → (member same_pair c (monitor_pids alive two_alive two_threads).threads
            ≡ is_live alive two_alive c)
          × (count same_pair c (monitor_pids alive two_alive two_threads).running
              ≡ (if not (member same_pair c two_threads.threads) && is_live alive two_alive c
                  then 1
                  else 0)
                + count same_pair c two_threads.running))
monitor_pids_example = monitor_pids_lem alive two_alive two_threads (refl, (refl, tt))

abbrev worker : Pair → Stage → Worker
worker c stage = record { pair = c; stage = stage }

-- Worker 0 and worker 1 are in their loops, and the server has begun to shut down.
abbrev shutting_down : Server
shutting_down = record {
  threads = (7, 1) ∷ (4, 1) ∷ [];
  workers = λ k.
      if k == 0
      then worker (7, 1) looping
      else if k == 1
      then worker (4, 1) looping
      else worker (0, 0) returned;
  count = 2;
  monitor = resting;
  shut_me_down = true;
  shutdown_ok = false;
}

shutting_down-Sound : Sound shutting_down
shutting_down-Sound = record {
  shutting = refl;
  monitoring = refl;
  told = λ e. ground (arith, e);
  telling = λ k e. ground (arith, e);
  inside = λ k e. ground (arith, e);
  alone = λ j k e. ground (arith, e);
}

-- All five statements of a worker that shuts down.
abbrev shuts_down : ℕ → List Action → List Action
shuts_down k rest =
    work k true handled
    ∷ work k true handled
    ∷ work k true handled
    ∷ work k true handled
    ∷ work k true handled
    ∷ rest

shutdown_ok_lem_example :
    let after = act_each (shuts_down 0 (shuts_down 1 [])) shutting_down in
    (is_empty after.threads ≡ true) × ((k : ℕ) → is_in (after.workers k).stage ≡ false)
unfolding act_each act
shutdown_ok_lem_example =
    shutdown_ok_lem (shuts_down 0 (shuts_down 1 [])) shutting_down shutting_down-Sound refl

-- Worker 0 counts before worker 1 takes its pair out, and stores behind it: the set is empty and all have
-- returned, but `shutdown_ok` is not set.
abbrev overtaken : List Action
overtaken =
    work 0 true handled
    ∷ work 0 true handled
    ∷ work 0 true handled
    ∷ work 0 true handled
    ∷ shuts_down 1 (work 0 true handled ∷ [])

lost :
    ((act_each overtaken shutting_down).threads ≡ [])
    × ((act_each overtaken shutting_down).shutdown_ok ≡ false)
    × (((act_each overtaken shutting_down).workers 0).stage ≡ returned)
    × (((act_each overtaken shutting_down).workers 1).stage ≡ returned)
unfolding act_each act
lost = (refl, refl, refl, refl)

-- The worker of (4, 1) has returned without taking its pair out, before the shutdown.
abbrev deserted : Server
deserted = record {
  threads = (7, 1) ∷ (4, 1) ∷ [];
  workers = λ k.
      if k == 0
      then worker (7, 1) looping
      else if k == 1
      then worker (4, 1) returned
      else worker (0, 0) returned;
  count = 2;
  monitor = resting;
  shut_me_down = true;
  shutdown_ok = false;
}

deserted-Deserted : Deserted deserted
deserted-Deserted = record {
  shutting = refl;
  untold = refl;
  monitoring = refl;
  deserted = inr ((4, 1), (refl, λ k. ground arith));
}

shutdown-waits_example :
    (act_each (shuts_down 0 (look alive two_alive ∷ [])) deserted).shutdown_ok ≡ false
shutdown-waits_example =
    shutdown-waits (shuts_down 0 (look alive two_alive ∷ [])) deserted deserted-Deserted

-- Lists that are their own text, in a page with room for 3 bytes.
abbrev longer : Bytes → Bytes
longer v = 9 ∷ v

change_lists_example :
    Leaves
      (λ v. v)
      some
      (λ _. refl)
      false
      true
      (9 ∷ 5 ∷ [])
      (record { body = page_with (5 ∷ []) (0 ∷ 0 ∷ 0 ∷ []); lock_acquired = false; locked = false })
      (change_lists
        (λ v. v)
        some
        true
        false
        longer
        (record {
          body = page_with (5 ∷ []) (0 ∷ 0 ∷ 0 ∷ []);
          lock_acquired = false;
          locked = false;
        }))
change_lists_example =
    change_lists_lem (λ v. v) some (λ _. refl) false true longer (5 ∷ []) (0 ∷ 0 ∷ 0 ∷ [])
      (omega arith)

-- What the page has then; the lock stays taken, since its `unlock` has raised.
changed :
    change_lists
      (λ v. v)
      some
      true
      false
      longer
      (record { body = 0 ∷ 0 ∷ 0 ∷ 1 ∷ 5 ∷ 0 ∷ 0 ∷ []; lock_acquired = false; locked = false })
    ≡ gives tt
        (record { body = 0 ∷ 0 ∷ 0 ∷ 2 ∷ 9 ∷ 5 ∷ 0 ∷ []; lock_acquired = false; locked = true })
unfolding change_lists decode encode_lists
changed = refl
