-- ===== src/Registry/Kept.antt =====
-- What the methods of the manager keep.
use shmrpc.Prelude.{
  ℕ, ◌==◌, ◌≡◌, Bool, true, not, ◌&&◌, List, [], ◌∷◌, refl, arith, Bool-cases, inl, inr, ◌∙◌, ap,
}
use shmrpc.Registry.Lists.{keep, member, Distinct, member-keep}
use shmrpc.Registry.Pids.{
  Pair, same_pair, Registry, unlink_resources, unlink_each, check_clients, check_for_missing_pids,
}

abbrev same_pid : ℕ → ℕ → Bool
same_pid a b = a == b

pub pid_own : (a : ℕ) → same_pid a a ≡ true
pid_own a = ground arith

pub pid_only : (a b : ℕ) → same_pid a b ≡ true → a ≡ b
pid_only a b e = ground (arith, e)

pub own : (c : Pair) → same_pair c c ≡ true
own (p, q) = ground arith

pub only : (c d : Pair) → same_pair c d ≡ true → c ≡ d
only (p, q) (r, s) e = ground (arith, e)

pub flip : (c d : Pair) → same_pair c d ≡ same_pair d c
flip (p, q) (r, s) = ground arith

-- The lists have no entry twice, and every pair that has a lock or a map is listed.
pub record Kept (r : Registry) : Type 0 where
  pub servers : Distinct same_pid r.servers
  pub clients : Distinct same_pair r.clients
  pub locks : (c : Pair) → r.locks c ≡ true → member same_pair c r.clients ≡ true
  pub maps : (c : Pair) → r.maps c ≡ true → member same_pair c r.clients ≡ true

unlink_each-clients : (cs : List Pair) (r : Registry) → (unlink_each cs r).clients ≡ r.clients
unfolding unlink_each unlink_resources
unlink_each-clients [] r = refl
unlink_each-clients (c ∷ cs) r = unlink_each-clients cs (unlink_resources c r)

-- Which names are bound when a list of pairs has been unlinked.
unlink_each-names :
    (cs : List Pair) (r : Registry) (d : Pair)
    → ((unlink_each cs r).locks d ≡ (not (member same_pair d cs) && r.locks d))
      × ((unlink_each cs r).maps d ≡ (not (member same_pair d cs) && r.maps d))
      × ((unlink_each cs r).servers ≡ r.servers)
unfolding unlink_each unlink_resources
unlink_each-names [] r d = (refl, refl, refl)
unlink_each-names (c ∷ cs) r d =
    let h = unlink_each-names cs (unlink_resources c r) d in ground (arith, h, flip c d)

-- The loop keeps the clients that are alive, and unlinks the others.
check_clients_lem :
    (alive : ℕ → Bool) (cs : List Pair) (r : Registry)
    → ((check_clients alive cs r).0 ≡ keep (λ c. alive c.0) cs)
      × ((check_clients alive cs r).1 ≡ unlink_each (keep (λ c. not (alive c.0)) cs) r)
unfolding check_clients unlink_each
check_clients_lem alive [] r = (refl, refl)
check_clients_lem alive (c ∷ cs) r = elim (Bool-cases (alive c.0)) [
  | inl e ↦ rw e (let h = check_clients_lem alive cs r in (ap (λ n. c ∷ n) h.0, h.1))
  | inr e ↦ rw e (check_clients_lem alive cs (unlink_resources c r))
]

-- The names that are bound when the loop over the clients has run.
checked-names :
    (alive : ℕ → Bool) (r : Registry) (c : Pair)
    → ((check_for_missing_pids alive r).locks c
        ≡ (not (not (alive c.0) && member same_pair c r.clients) && r.locks c))
      × ((check_for_missing_pids alive r).maps c
          ≡ (not (not (alive c.0) && member same_pair c r.clients) && r.maps c))
unfolding check_for_missing_pids
checked-names alive r c =
    let dead = keep (λ d. not (alive d.0)) r.clients in
    rw (check_for_missing_pids, (check_clients_lem alive r.clients r).1)
      (let h = unlink_each-names dead r c in
        let e = member-keep same_pair own only (λ d. not (alive d.0)) c r.clients in
        (h.0 ∙ ap (λ b. not b && r.locks c) e, h.1 ∙ ap (λ b. not b && r.maps c) e))

-- Where every pair that has a lock or a map is listed, `check_for_missing_pids` keeps, in their order, the
-- servers and the clients that are alive, and of the locks and the maps exactly those of the pairs that
-- are alive.
pub check_for_missing_pids_lem :
    (alive : ℕ → Bool) (r : Registry)
    → Kept r
    → ((check_for_missing_pids alive r).servers ≡ keep alive r.servers)
      × ((check_for_missing_pids alive r).clients ≡ keep (λ c. alive c.0) r.clients)
      × ((c : Pair)
          → ((check_for_missing_pids alive r).locks c ≡ (alive c.0 && r.locks c))
            × ((check_for_missing_pids alive r).maps c ≡ (alive c.0 && r.maps c)))
unfolding check_for_missing_pids
check_for_missing_pids_lem alive r k = (
  refl,
  (check_clients_lem alive r.clients r).0,
  λ c. ground (arith, checked-names alive r c, k.locks c, k.maps c),
)
