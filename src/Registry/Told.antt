-- ===== src/Registry/Told.antt =====
-- What `shutdown_ok` says.
use shmrpc.Prelude.{
  ℕ, ◌==◌, ◌≡◌, ◌≢◌, Bool, true, false, not, ◌||◌, List, [], ◌∷◌, refl, arith, inl, inr, Bool-cases,
  ◌∙◌,
}
use mathlib.Core.Path.{subst}
use shmrpc.Machine.State.{update}
use shmrpc.Registry.Lists.{member}
use shmrpc.Registry.Sets.{member-other}
use shmrpc.Registry.Pids.{Pair, same_pair}
use shmrpc.Registry.Kept.{own, only}
use shmrpc.Registry.Workers.{discard}
use shmrpc.Registry.Steps.{
  Stage, opening, looping, listed, handling, leaving, removed, counted, returned, Worker, resting,
  Server, Round, is_empty, at_stage, work_at, Action, look, work, begin_shutdown, act, act_each,
}
use shmrpc.Registry.Shutdown.{idle_look, is_empty-member}

-- The worker has found its pair in the set, and not taken it out.
abbrev pub is_in : Stage → Bool
is_in listed = true
is_in handling = true
is_in leaving = true
is_in _ = false

-- The worker is about to store that the set is empty.
abbrev pub is_yes : Stage → Bool
is_yes (counted b) = b
is_yes _ = false

abbrev pub is_returned : Stage → Bool
is_returned returned = true
is_returned _ = false

-- The server shuts down, and the thread that monitors is not inside `monitor_pids`; who says that the set
-- is empty is right; the pairs of workers that have found them in the set are there; and two workers
-- that have not returned have different pairs.
pub record Sound (s : Server) : Type 0 where
  pub shutting : s.shut_me_down ≡ true
  pub monitoring : s.monitor ≡ resting
  pub told : s.shutdown_ok ≡ true → is_empty s.threads ≡ true
  pub telling : (k : ℕ) → is_yes (s.workers k).stage ≡ true → is_empty s.threads ≡ true
  pub inside :
      (k : ℕ)
      → is_in (s.workers k).stage ≡ true
      → member same_pair (s.workers k).pair s.threads ≡ true
  pub alone :
      (j k : ℕ)
      → j ≢ k
      → (not (same_pair (s.workers j).pair (s.workers k).pair)
          || (is_returned (s.workers j).stage || is_returned (s.workers k).stage))
        ≡ true

abbrev Apart : Worker → Worker → Type 0
Apart v w = (not (same_pair v.pair w.pair) || (is_returned v.stage || is_returned w.stage)) ≡ true

or_left : (a b c d : Bool) → b ≡ false → (a || (b || d)) ≡ true → (a || (c || d)) ≡ true
or_left a b c d none_b h = ground (arith, none_b, h)

or_right : (a b c d : Bool) → b ≡ false → (a || (d || b)) ≡ true → (a || (d || c)) ≡ true
or_right a b c d none_b h = ground (arith, none_b, h)

-- A worker that has returned is apart from all, so another stage leaves two workers apart.
left-Apart :
    (stage : Stage) (v w : Worker)
    → is_returned v.stage ≡ false
    → Apart v w
    → Apart (record v { stage = stage }) w
left-Apart stage v w active h =
    or_left (not (same_pair v.pair w.pair)) (is_returned v.stage) (is_returned stage)
      (is_returned w.stage) active h

right-Apart :
    (stage : Stage) (v w : Worker)
    → is_returned w.stage ≡ false
    → Apart v w
    → Apart v (record w { stage = stage })
right-Apart stage v w active h =
    or_right (not (same_pair v.pair w.pair)) (is_returned w.stage) (is_returned stage)
      (is_returned v.stage) active h

update-each :
    (P : ℕ → Worker → Type 0) (f : ℕ → Worker) (k j : ℕ) (w : Worker)
    → P k w
    → (k ≢ j → P j (f j))
    → P j (update f k w j)
update-each P f k j w h g = elim (Bool-cases (k == j)) [
  | inl e ↦ rw e (subst (λ i. P i w) (ground (arith, e)) h)
  | inr e ↦ rw e (g (ground (arith, e)))
]

update-Apart :
    (k : ℕ) (stage : Stage) (s : Server)
    → is_returned (s.workers k).stage ≡ false
    → ((j i : ℕ) → j ≢ i → Apart (s.workers j) (s.workers i))
    → (j i : ℕ) → j ≢ i
    → Apart ((at_stage k stage s).workers j) ((at_stage k stage s).workers i)
update-Apart k stage s active h j i =
    let w = record (s.workers k) { stage = stage } in
    update-each (λ j v. j ≢ i → Apart v ((at_stage k stage s).workers i)) s.workers k j w
      (update-each (λ i v. k ≢ i → Apart w v) s.workers k i w (λ ne. absurd (ne refl))
        (λ _ ne. left-Apart stage (s.workers k) (s.workers i) active (h k i ne)))
      (λ other.
        update-each (λ i v. j ≢ i → Apart (s.workers j) v) s.workers k i w
          (λ ne. right-Apart stage (s.workers j) (s.workers k) active (h j k ne))
          (λ _ ne. h j i ne))

at_stage-Sound :
    (k : ℕ) (stage : Stage) (s : Server)
    → is_returned (s.workers k).stage ≡ false
    → (is_yes stage ≡ true → is_empty s.threads ≡ true)
    → (is_in stage ≡ true → member same_pair (s.workers k).pair s.threads ≡ true)
    → Sound s
    → Sound (at_stage k stage s)
at_stage-Sound k stage s active tells enters v =
    let w = record (s.workers k) { stage = stage } in
    record {
      shutting = v.shutting;
      monitoring = v.monitoring;
      told = v.told;
      telling = λ j.
          update-each (λ _ u. is_yes u.stage ≡ true → is_empty s.threads ≡ true) s.workers k j w
            tells (λ _. v.telling j);
      inside = λ j.
          update-each (λ _ u. is_in u.stage ≡ true → member same_pair u.pair s.threads ≡ true)
            s.workers k j w enters (λ _. v.inside j);
      alone = update-Apart k stage s active v.alone;
    }

stores-Sound :
    (b : Bool) (s : Server)
    → (b ≡ true → is_empty s.threads ≡ true)
    → Sound s
    → Sound (record s { shutdown_ok = b })
stores-Sound b s tells v = record {
  shutting = v.shutting;
  monitoring = v.monitoring;
  told = tells;
  telling = v.telling;
  inside = v.inside;
  alone = v.alone;
}

discard-is_empty : (c : Pair) (cs : List Pair) → is_empty cs ≡ true → is_empty (discard c cs) ≡ true
discard-is_empty c [] e = refl
discard-is_empty c (d ∷ cs) e = ground (arith, e)

-- The pair of a worker that is inside stays when another one takes its own out.
stays :
    (j k : ℕ) (s : Server)
    → j ≢ k
    → Sound s
    → is_in (s.workers j).stage ≡ true
    → is_returned (s.workers k).stage ≡ false
    → member same_pair (s.workers j).pair (discard (s.workers k).pair s.threads) ≡ true
stays j k s differ v e f =
    let out : is_returned (s.workers j).stage ≡ false = ground (arith, e) in
    let other : same_pair (s.workers j).pair (s.workers k).pair ≡ false =
      ground (arith, v.alone j k differ, f, out) in
    member-other same_pair own only (s.workers j).pair (s.workers k).pair s.threads other
    ∙ v.inside j e

leaves-Sound :
    (k : ℕ) (s : Server)
    → (s.workers k).stage ≡ leaving
    → Sound s
    → Sound (at_stage k removed (record s { threads = discard (s.workers k).pair s.threads }))
leaves-Sound k s e v = record {
  shutting = v.shutting;
  monitoring = v.monitoring;
  told = λ f. discard-is_empty (s.workers k).pair s.threads (v.told f);
  telling = λ j f. discard-is_empty (s.workers k).pair s.threads (ground (arith, f, v.telling j));
  inside = λ j f. elim (Bool-cases (k == j)) [
    | inl same ↦ ground (arith, f, same)
    | inr differ ↦
        let g : is_in (s.workers j).stage ≡ true = ground (arith, f, differ) in
        rw differ (stays j k s (λ h. ground (arith, h, differ)) v g (rw e refl))
  ];
  alone = λ i j f. ground (arith, e, v.alone i j f);
}

work-Sound :
    (k : ℕ) (opened : Bool) (o : Round) (stage : Stage) (s : Server)
    → (s.workers k).stage ≡ stage
    → Sound s
    → Sound (work_at k (s.workers k).pair opened o stage s)
work-Sound k opened o opening s e v =
    at_stage-Sound k _ s (rw e refl) (λ f. ground (arith, f)) (λ f. ground (arith, f)) v
work-Sound k opened o looping s e v =
    at_stage-Sound k _ s (rw e refl) (λ f. ground (arith, f)) (λ f. ground (arith, f)) v
work-Sound k opened o listed s e v =
    at_stage-Sound k _ s (rw e refl) (λ f. ground (arith, f)) (λ f. v.inside k (rw e refl)) v
work-Sound k opened o handling s e v =
    at_stage-Sound k _ s (rw e refl) (λ f. ground (arith, f)) (λ f. ground (arith, f)) v
work-Sound k opened o removed s e v =
    at_stage-Sound k _ s (rw e refl) (λ f. f) (λ f. ground (arith, f)) v
work-Sound k opened o (counted b) s e v =
    at_stage-Sound k returned (record s { shutdown_ok = b }) (rw e refl) (λ f. ground (arith, f))
      (λ f. ground (arith, f)) (stores-Sound b s (λ f. v.telling k (rw e f)) v)
work-Sound k opened o returned s e v = v
work-Sound k opened o leaving s e v = leaves-Sound k s e v

act-Sound : (a : Action) (s : Server) → Sound s → Sound (act a s)
unfolding act
act-Sound (look alive r) s v = rw (idle_look alive r s v.monitoring v.shutting) v
act-Sound (work k opened o) s v = work-Sound k opened o (s.workers k).stage s refl v
act-Sound begin_shutdown s v = record {
  shutting = refl;
  monitoring = v.monitoring;
  told = v.told;
  telling = v.telling;
  inside = v.inside;
  alone = v.alone;
}

act_each-Sound : (xs : List Action) (s : Server) → Sound s → Sound (act_each xs s)
unfolding act_each
act_each-Sound [] s v = v
act_each-Sound (a ∷ xs) s v = act_each-Sound xs (act a s) (act-Sound a s v)

nobody_in :
    (k : ℕ) (s : Server) → Sound s → is_empty s.threads ≡ true → is_in (s.workers k).stage ≡ false
nobody_in k s v e = elim (Bool-cases (is_in (s.workers k).stage)) [
  | inl f ↦ ground (arith, e, is_empty-member (s.workers k).pair s.threads (v.inside k f))
  | inr f ↦ f
]

-- A server that shuts down, while the thread that monitors is not inside `monitor_pids`; where so far
-- nobody says, or is about to say, that the set is empty, unless it is, and the workers that have not
-- returned have different pairs, which are in the set if they have found them there. In whatever order
-- its workers and the thread that monitors go on, statement by statement: once `shutdown_ok` is set, the
-- set is empty, and no worker is between finding its pair in the set and taking it out, which
-- `handle_command` is, so that `shutdown` does not return while a request is handled.
pub shutdown_ok_lem :
    (xs : List Action) (s : Server)
    → Sound s
    → (act_each xs s).shutdown_ok ≡ true
    → (is_empty (act_each xs s).threads ≡ true)
      × ((k : ℕ) → is_in ((act_each xs s).workers k).stage ≡ false)
shutdown_ok_lem xs s v e =
    let z = act_each-Sound xs s v in
    let empty = z.told e in (empty, λ k. nobody_in k (act_each xs s) z empty)
