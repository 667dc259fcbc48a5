-- ===== src/Registry/Strays.antt =====
-- Which locks and memory maps may be left behind.
use shmrpc.Prelude.{
  ◌≡◌, Bool, true, false, not, ◌&&◌, ◌||◌, List, [], ◌∷◌, Option, none, some, refl, arith, ap,
}
use shmrpc.Registry.Lists.{
  keep, member, Distinct, member-keep, member-append_new, keep-Distinct, append_new-Distinct,
  remove_each-keep,
}
use shmrpc.Registry.Pids.{Pair, same_pair}
use shmrpc.Registry.Kept.{own, only, flip, pid_own, pid_only}
use shmrpc.Registry.Methods.{
  same_pid, Kind, lock, map, same_kind, Name, same_name, Lists, Work, Manager, drops_of, Method,
  check_for_missing_pids, add_server_pid, del_server_pid, reset_all_server_pids, add_client_pid_qid,
  del_client_pid_qid, reset_all_client_pids, planned, Event, create, drop, begin, drop_next, encode,
  give_up, bind, unbind, drop_head, encoded, step_in, step, history,
}

abbrev stray_after_drop : List Name → (Name → Bool) → Name → Bool
stray_after_drop [] f = f
stray_after_drop (a ∷ drops) f = unbind f a

abbrev stray_after_encode : Work → List Name → (Name → Bool) → Name → Bool
stray_after_encode w [] f a = f a && not (member same_pair a.1 w.result.clients)
stray_after_encode w (b ∷ drops) f a = f a

abbrev stray_in : Event → Option Work → (Name → Bool) → Name → Bool
stray_in (create a) o f = bind f a
stray_in (drop a) o f = unbind f a
stray_in (begin e) o f = f
stray_in drop_next none f = f
stray_in drop_next (some w) f = stray_after_drop w.drops f
stray_in encode none f = f
stray_in encode (some w) f = stray_after_encode w w.drops f
stray_in give_up o f = f

-- Whether a name has been created, and neither been dropped since, nor a list been encoded that has its
-- pair.
unfoldable pub is_stray : List Event → Name → Bool
is_stray [] a = false
is_stray (e ∷ es) a = stray_in e (history es).work (is_stray es) a

abbrev IsLists : Lists → Type 0
IsLists l = Distinct same_pid l.servers × Distinct same_pair l.clients

-- For each listed pair: the method will leave it in the list, or has still to drop the name, or the
-- name is not bound but by a create since.
abbrev IsPlan : Lists → (Name → Bool) → (Name → Bool) → Work → Type 0
IsPlan l bound stray w =
    IsLists w.result
    × ((a : Name)
        → member same_pair a.1 l.clients ≡ true
        → bound a ≡ true
        → (member same_pair a.1 w.result.clients || (member same_name a w.drops || stray a)) ≡ true)

abbrev IsWork : Lists → (Name → Bool) → (Name → Bool) → Option Work → Type 0
IsWork l bound stray none = Unit
IsWork l bound stray (some w) = IsPlan l bound stray w

record Tracked (l : Lists) (bound stray : Name → Bool) (o : Option Work) : Type 0 where
  lists : IsLists l
  names : (a : Name) → bound a ≡ true → (member same_pair a.1 l.clients || stray a) ≡ true
  work : IsWork l bound stray o

member-drops_of :
    (k : Kind) (c : Pair) (cs : List Pair)
    → member same_name (k, c) (drops_of cs) ≡ member same_pair c cs
member-drops_of k c [] = refl
member-drops_of lock c (d ∷ cs) = ground (arith, member-drops_of lock c cs)
member-drops_of map c (d ∷ cs) = ground (arith, member-drops_of map c cs)

planned-Lists : (e : Method) (l : Lists) → IsLists l → IsLists (planned e l).result
planned-Lists (check_for_missing_pids alive) l (s, c) = (
  keep-Distinct same_pid pid_own pid_only alive l.servers s,
  keep-Distinct same_pair own only (λ d. alive d.0) l.clients c,
)
planned-Lists (add_server_pid pid) l (s, c) =
    (append_new-Distinct same_pid pid_own pid_only pid l.servers s, c)
planned-Lists (del_server_pid pid) l (s, c) = (
  rw (remove_each-keep same_pid pid_own pid_only pid l.servers)
      (keep-Distinct same_pid pid_own pid_only (λ b. not (same_pid pid b)) l.servers s),
  c,
)
planned-Lists reset_all_server_pids l (s, c) = (tt, c)
planned-Lists (add_client_pid_qid d) l (s, c) =
    (s, append_new-Distinct same_pair own only d l.clients c)
planned-Lists (del_client_pid_qid d) l (s, c) = (
  s,
  rw (remove_each-keep same_pair own only d l.clients)
      (keep-Distinct same_pair own only (λ b. not (same_pair d b)) l.clients c),
)
planned-Lists reset_all_client_pids l (s, c) = (s, tt)

-- What a method takes out of the list, it drops.
planned-covers :
    (e : Method) (l : Lists) (k : Kind) (c : Pair)
    → member same_pair c l.clients ≡ true
    → (member same_pair c (planned e l).result.clients
        || member same_name (k, c) (planned e l).drops)
      ≡ true
planned-covers (check_for_missing_pids alive) l k c h =
    rw
      (
        member-drops_of k c (keep (λ d. not (alive d.0)) l.clients),
        member-keep same_pair own only (λ d. alive d.0) c l.clients,
        member-keep same_pair own only (λ d. not (alive d.0)) c l.clients,
        h,
      )
      (ground arith)
planned-covers (add_server_pid pid) l k c h = ground (arith, h)
planned-covers (del_server_pid pid) l k c h = ground (arith, h)
planned-covers reset_all_server_pids l k c h = ground (arith, h)
planned-covers (add_client_pid_qid d) l k c h =
    rw (member-append_new same_pair own only c d l.clients, h) (ground arith)
planned-covers (del_client_pid_qid d) l k c h =
    rw
      (
        member-drops_of k c (d ∷ []),
        remove_each-keep same_pair own only d l.clients,
        member-keep same_pair own only (λ b. not (same_pair d b)) c l.clients,
        h,
        flip d c,
      )
      (ground arith)
planned-covers reset_all_client_pids l k c h = rw (member-drops_of k c l.clients) h

flip_kind : (k l : Kind) → same_kind k l ≡ same_kind l k
flip_kind k l = ground arith

flip_name : (a b : Name) → same_name a b ≡ same_name b a
flip_name (k, c) (l, d) = ground (arith, flip_kind k l, flip c d)

IsWork-bind :
    (l : Lists) (bound stray : Name → Bool) (o : Option Work) (a : Name)
    → IsWork l bound stray o
    → IsWork l (bind bound a) (bind stray a) o
IsWork-bind l bound stray none a h = tt
IsWork-bind l bound stray (some w) a (d, h) = (d, λ b e f. ground (arith, h b e, f))

IsWork-unbind :
    (l : Lists) (bound stray : Name → Bool) (o : Option Work) (a : Name)
    → IsWork l bound stray o
    → IsWork l (unbind bound a) (unbind stray a) o
IsWork-unbind l bound stray none a h = tt
IsWork-unbind l bound stray (some w) a (d, h) = (d, λ b e f. ground (arith, h b e, f))

dropped :
    (l : Lists) (bound stray : Name → Bool) (w : Work) (drops : List Name) (a : Name)
    → w.drops ≡ a ∷ drops
    → IsPlan l bound stray w
    → IsPlan l (unbind bound a) (unbind stray a) (record w { drops = drops })
dropped l bound stray w drops a e (d, h) = (
  d,
  λ b f g. let i = ap (λ ds. member same_name b ds) e in ground (arith, h b f, g, i, flip_name a b),
)

bind-Tracked :
    (l : Lists) (bound stray : Name → Bool) (o : Option Work) (a : Name)
    → Tracked l bound stray o
    → Tracked l (bind bound a) (bind stray a) o
bind-Tracked l bound stray o a t = record {
  lists = t.lists;
  names = λ b e. ground (arith, t.names b, e);
  work = IsWork-bind l bound stray o a t.work;
}

unbind-Tracked :
    (l : Lists) (bound stray : Name → Bool) (o : Option Work) (a : Name)
    → Tracked l bound stray o
    → Tracked l (unbind bound a) (unbind stray a) o
unbind-Tracked l bound stray o a t = record {
  lists = t.lists;
  names = λ b e. ground (arith, t.names b, e);
  work = IsWork-unbind l bound stray o a t.work;
}

begun-Tracked :
    (l : Lists) (bound stray : Name → Bool) (e : Method)
    → Tracked l bound stray none
    → Tracked l bound stray (some (planned e l))
begun-Tracked l bound stray e t = record {
  lists = t.lists;
  names = t.names;
  work = (planned-Lists e l t.lists, λ a f g. ground (arith, planned-covers e l a.0 a.1 f));
}

gone-Tracked :
    (l : Lists) (bound stray : Name → Bool) (o : Option Work)
    → Tracked l bound stray o
    → Tracked l bound stray none
gone-Tracked l bound stray o t = record { lists = t.lists; names = t.names; work = tt }

abbrev Follows : Manager → (Name → Bool) → Type 0
Follows m stray = Tracked m.lists m.bound stray m.work

drop_head-Follows :
    (w : Work) (drops : List Name) (m : Manager) (stray : Name → Bool)
    → m.work ≡ some w
    → w.drops ≡ drops
    → Tracked m.lists m.bound stray (some w)
    → Follows (drop_head w drops m) (stray_after_drop drops stray)
drop_head-Follows w [] m stray e f t = rw e t
drop_head-Follows w (a ∷ drops) m stray e f t = record {
  lists = t.lists;
  names = (unbind-Tracked m.lists m.bound stray (some w) a t).names;
  work = dropped m.lists m.bound stray w drops a f t.work;
}

encoded-Follows :
    (w : Work) (drops : List Name) (m : Manager) (stray : Name → Bool)
    → m.work ≡ some w
    → w.drops ≡ drops
    → Tracked m.lists m.bound stray (some w)
    → Follows (encoded w drops m) (stray_after_encode w drops stray)
encoded-Follows w (a ∷ drops) m stray e f t = rw e t
encoded-Follows w [] m stray e f t = record {
  lists = t.work.0;
  names = λ b g.
      let i = ap (λ ds. member same_name b ds) f in ground (arith, t.names b, t.work.1 b, g, i);
  work = tt;
}

step_in-Follows :
    (e : Event) (o : Option Work) (m : Manager) (stray : Name → Bool)
    → m.work ≡ o
    → Tracked m.lists m.bound stray o
    → Follows (step_in e o m) (stray_in e o stray)
step_in-Follows (create a) o m stray e t = rw e (bind-Tracked m.lists m.bound stray o a t)
step_in-Follows (drop a) o m stray e t = rw e (unbind-Tracked m.lists m.bound stray o a t)
step_in-Follows (begin f) none m stray e t = begun-Tracked m.lists m.bound stray f t
step_in-Follows (begin f) (some w) m stray e t = rw e t
step_in-Follows drop_next none m stray e t = rw e t
step_in-Follows drop_next (some w) m stray e t = drop_head-Follows w w.drops m stray e refl t
step_in-Follows encode none m stray e t = rw e t
step_in-Follows encode (some w) m stray e t = encoded-Follows w w.drops m stray e refl t
step_in-Follows give_up o m stray e t = gone-Tracked m.lists m.bound stray o t

history-Follows : (es : List Event) → Follows (history es) (is_stray es)
unfolding history is_stray step
history-Follows [] = record { lists = (tt, tt); names = λ a e. ground (arith, e); work = tt }
history-Follows (e ∷ es) =
    step_in-Follows e (history es).work (history es) (is_stray es) refl (history-Follows es)

-- From an empty manager on, whatever methods the processes call, in any order of their calls, and wherever
-- a method is cut off but in the middle of `_encode`; the constructor of a manager, which may write empty
-- lists, is not among them. Then no server and no pair is listed twice; and a lock or a memory map that exists belongs to a
-- pair that is listed, or is a stray: it has been created, by the creation of a connection or by a
-- resize, and since then neither been dropped nor its pair been written to the list. So a method that
-- takes a pair out of the list leaves nothing of it behind but what is created meanwhile.
pub history-Tracked :
    (es : List Event)
    → Distinct same_pid (history es).lists.servers
      × Distinct same_pair (history es).lists.clients
      × ((a : Name)
          → (history es).bound a ≡ true
          → (member same_pair a.1 (history es).lists.clients || is_stray es a) ≡ true)
history-Tracked es = let t = history-Follows es in (t.lists.0, t.lists.1, t.names)
