-- ===== src/Registry/Shutdown.antt =====
-- When `shutdown`, which waits until `shutdown_ok` is set, waits for ever.
use shmrpc.Prelude.{
  ℕ, ◌≡◌, ◌⊎◌, Bool, true, false, not, ◌&&◌, List, [], ◌∷◌, refl, arith, if◌then◌else◌, inl, inr,
  ◌∙◌,
}
use shmrpc.Registry.Lists.{member}
use shmrpc.Registry.Sets.{member-other}
use shmrpc.Registry.Pids.{Pair, same_pair, Registry}
use shmrpc.Registry.Kept.{own, only}
use shmrpc.Registry.Steps.{
  Stage, opening, looping, listed, handling, leaving, removed, counted, returned, Worker, resting,
  Server, Round, after_round, is_empty, at_stage, work_at, Action, look, work, begin_shutdown, act,
  act_each,
}

pub is_empty-member : (c : Pair) (s : List Pair) → member same_pair c s ≡ true → is_empty s ≡ false
is_empty-member c [] e = ground (arith, e)
is_empty-member c (d ∷ s) e = refl

-- The worker does not stand between the test of the set and the store of `shutdown_ok`.
abbrev pub is_apart : Stage → Bool
is_apart opening = true
is_apart looping = true
is_apart handling = true
is_apart returned = true
is_apart _ = false

-- The set is empty, and no worker is on its way to tell so.
abbrev pub Vacant : Server → Type 0
Vacant s = (s.threads ≡ []) × ((k : ℕ) → is_apart (s.workers k).stage ≡ true)

-- The worker is not about to store that the set is empty; and it has returned, if it has the pair.
abbrev pub is_aside : Pair → Worker → Bool
is_aside c w = elim w.stage [
  | returned ↦ true
  | counted b ↦ not b && not (same_pair c w.pair)
  | _ ↦ not (same_pair c w.pair)
]

-- The pair is in the set, and has no worker.
abbrev pub IsLeft : Pair → Server → Type 0
IsLeft c s = (member same_pair c s.threads ≡ true) × ((k : ℕ) → is_aside c (s.workers k) ≡ true)

-- The server shuts down, and the thread that monitors is not inside `monitor_pids`.
pub record Deserted (s : Server) : Type 0 where
  pub shutting : s.shut_me_down ≡ true
  pub untold : s.shutdown_ok ≡ false
  pub monitoring : s.monitor ≡ resting
  pub deserted : Vacant s ⊎ ((c : Pair) × IsLeft c s)

at_stage-apart :
    (k : ℕ) (stage : Stage) (s : Server)
    → is_apart stage ≡ true
    → ((j : ℕ) → is_apart (s.workers j).stage ≡ true)
    → (j : ℕ) → is_apart ((at_stage k stage s).workers j).stage ≡ true
at_stage-apart k stage s a apart j = ground (arith, a, apart j)

opened-apart : (b : Bool) → is_apart (if b then looping else returned) ≡ true
opened-apart b = ground arith

after_round-apart : (o : Round) → is_apart (after_round o) ≡ true
after_round-apart o = ground arith

work-Vacant :
    (k : ℕ) (c : Pair) (opened : Bool) (o : Round) (stage : Stage) (s : Server)
    → is_apart stage ≡ true
    → Vacant s
    → Vacant (work_at k c opened o stage s)
      × ((work_at k c opened o stage s).shutdown_ok ≡ s.shutdown_ok)
work-Vacant k c opened o opening s e (v, apart) =
    ((v, at_stage-apart k _ s (opened-apart opened) apart), refl)
work-Vacant k c opened o looping s e (v, apart) =
    ((v, at_stage-apart k _ s (rw v refl) apart), refl)
work-Vacant k c opened o handling s e (v, apart) =
    ((v, at_stage-apart k _ s (after_round-apart o) apart), refl)
work-Vacant k c opened o returned s e (v, apart) = ((v, apart), refl)
work-Vacant k c opened o listed s e h = ground (arith, e)
work-Vacant k c opened o leaving s e h = ground (arith, e)
work-Vacant k c opened o removed s e h = ground (arith, e)
work-Vacant k c opened o (counted b) s e h = ground (arith, e)

at_stage-aside :
    (c : Pair) (k : ℕ) (stage : Stage) (s : Server)
    → is_aside c (record (s.workers k) { stage = stage }) ≡ true
    → ((j : ℕ) → is_aside c (s.workers j) ≡ true)
    → (j : ℕ) → is_aside c ((at_stage k stage s).workers j) ≡ true
at_stage-aside c k stage s a aside j = ground (arith, a, aside j)

opened-aside :
    (c : Pair) (w : Worker) (b : Bool)
    → same_pair c w.pair ≡ false
    → is_aside c (record w { stage = if b then looping else returned }) ≡ true
opened-aside c w b e = ground (arith, e)

listed-aside :
    (c : Pair) (w : Worker) (b : Bool)
    → same_pair c w.pair ≡ false
    → is_aside c (record w { stage = if b then listed else returned }) ≡ true
listed-aside c w b e = ground (arith, e)

leaving-aside :
    (c : Pair) (w : Worker) (b : Bool)
    → same_pair c w.pair ≡ false
    → is_aside c (record w { stage = if b then leaving else handling }) ≡ true
leaving-aside c w b e = ground (arith, e)

after_round-aside :
    (c : Pair) (w : Worker) (o : Round)
    → same_pair c w.pair ≡ false
    → is_aside c (record w { stage = after_round o }) ≡ true
after_round-aside c w o e = ground (arith, e)

work-IsLeft :
    (c : Pair) (k : ℕ) (opened : Bool) (o : Round) (stage : Stage) (s : Server)
    → is_aside c (record (s.workers k) { stage = stage }) ≡ true
    → s.shutdown_ok ≡ false
    → IsLeft c s
    → IsLeft c (work_at k (s.workers k).pair opened o stage s)
      × ((work_at k (s.workers k).pair opened o stage s).shutdown_ok ≡ false)
work-IsLeft c k opened o opening s e u (there, aside) = (
  (there, at_stage-aside c k _ s (opened-aside c (s.workers k) opened (ground (arith, e))) aside),
  u,
)
work-IsLeft c k opened o looping s e u (there, aside) =
    ((there, at_stage-aside c k _ s (listed-aside c (s.workers k) _ (ground (arith, e))) aside), u)
work-IsLeft c k opened o listed s e u (there, aside) =
    ((there, at_stage-aside c k _ s (leaving-aside c (s.workers k) _ (ground (arith, e))) aside), u)
work-IsLeft c k opened o handling s e u (there, aside) = (
  (there, at_stage-aside c k _ s (after_round-aside c (s.workers k) o (ground (arith, e))) aside),
  u,
)
work-IsLeft c k opened o leaving s e u (there, aside) =
    let other : same_pair c (s.workers k).pair ≡ false = ground (arith, e) in
    (
      (
        member-other same_pair own only c (s.workers k).pair s.threads other ∙ there,
        at_stage-aside c k removed s (ground (arith, other)) aside,
      ),
      u,
    )
work-IsLeft c k opened o removed s e u (there, aside) =
    let full = is_empty-member c s.threads there in
    ((there, at_stage-aside c k _ s (rw full (ground (arith, e))) aside), u)
work-IsLeft c k opened o (counted b) s e u (there, aside) =
    ((there, at_stage-aside c k returned s refl aside), ground (arith, e))
work-IsLeft c k opened o returned s e u h = (h, u)

pub work_at-kept :
    (k : ℕ) (c : Pair) (opened : Bool) (o : Round) (stage : Stage) (s : Server)
    → ((work_at k c opened o stage s).shut_me_down ≡ s.shut_me_down)
      × ((work_at k c opened o stage s).monitor ≡ s.monitor)
work_at-kept k c opened o stage s = ground arith

pub idle_look :
    (alive : ℕ → Bool) (r : Registry) (s : Server)
    → s.monitor ≡ resting
    → s.shut_me_down ≡ true
    → act (look alive r) s ≡ s
unfolding act
idle_look alive r s e f = ground (arith, e, f)

work-Deserted :
    (k : ℕ) (opened : Bool) (o : Round) (s : Server)
    → Deserted s
    → Deserted (act (work k opened o) s)
unfolding act
work-Deserted k opened o s d =
    let (shut, monitors) = work_at-kept k (s.workers k).pair opened o (s.workers k).stage s in
    elim d.deserted [
      | inl v ↦
          let (v', same) =
            work-Vacant k (s.workers k).pair opened o (s.workers k).stage s (v.1 k) v in
          record {
            shutting = shut ∙ d.shutting;
            untold = same ∙ d.untold;
            monitoring = monitors ∙ d.monitoring;
            deserted = inl v';
          }
      | inr (c, h) ↦
          let (h', told) = work-IsLeft c k opened o (s.workers k).stage s (h.1 k) d.untold h in
          record {
            shutting = shut ∙ d.shutting;
            untold = told;
            monitoring = monitors ∙ d.monitoring;
            deserted = inr (c, h');
          }
    ]

act-Deserted : (a : Action) (s : Server) → Deserted s → Deserted (act a s)
unfolding act
act-Deserted (look alive r) s d = rw (idle_look alive r s d.monitoring d.shutting) d
act-Deserted (work k opened o) s d = work-Deserted k opened o s d
act-Deserted begin_shutdown s d = record {
  shutting = refl;
  untold = d.untold;
  monitoring = d.monitoring;
  deserted = d.deserted;
}

act_each-Deserted : (xs : List Action) (s : Server) → Deserted s → Deserted (act_each xs s)
unfolding act_each
act_each-Deserted [] s d = d
act_each-Deserted (a ∷ xs) s d = act_each-Deserted xs (act a s) (act-Deserted a s d)

-- A server that shuts down, while the thread that monitors is not inside `monitor_pids`. Either it has no
-- pair in its set, and no worker that has found its pair there goes on to tell so; or it has a pair whose
-- workers have all returned, and no worker is about to store that the set is empty. Then, in whatever
-- order its workers and the thread that monitors go on, statement by statement, `shutdown_ok` is not
-- set, so that `shutdown` waits for ever.
pub shutdown-waits :
    (xs : List Action) (s : Server) → Deserted s → (act_each xs s).shutdown_ok ≡ false
shutdown-waits xs s d = (act_each-Deserted xs s d).untold
