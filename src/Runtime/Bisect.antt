-- ===== src/Runtime/Bisect.antt =====
-- `__pyx_bisect_code_objects` finds the position of a line in a sorted array.
use shmrpc.Prelude.{
  ℕ, zero, suc, ◌+◌, ◌-◌, ◌/◌, ◌<◌, ◌≤◌, ℤ, pos, negsuc, ltb_ℤ, ltb, ◌≡◌, Option, none, some, true,
  false, Bool-cases, inl, inr, arith, refl, sym, ◌⊎◌, ◌&&◌,
}
use shmrpc.Runtime.CodeCache.{
  Entry, Probe, found, narrowed, probe, at_mid, bisect_loop, bisect_code_objects,
}

pub ltb_ℤ_trans : (a b c : ℤ) → ltb_ℤ a b ≡ true → ltb_ℤ b c ≡ true → ltb_ℤ a c ≡ true
ltb_ℤ_trans a b c h k = ground arith

pub ltb_ℤ_trans_le : (a b c : ℤ) → ltb_ℤ b a ≡ false → ltb_ℤ b c ≡ true → ltb_ℤ a c ≡ true
ltb_ℤ_trans_le a b c h k = ground arith

pub ltb_ℤ_irrefl : (a : ℤ) → ltb_ℤ a a ≡ false
ltb_ℤ_irrefl a = ground arith

pub ltb_ℤ_asym : (a b : ℤ) → ltb_ℤ a b ≡ true → ltb_ℤ b a ≡ false
ltb_ℤ_asym a b h = ground arith

pub eq_ℤ_of : (a b : ℤ) → ltb_ℤ a b ≡ false → ltb_ℤ b a ≡ false → a ≡ b
eq_ℤ_of (pos a) (pos b) h k = ground arith
eq_ℤ_of (pos a) (negsuc b) h k = ground arith
eq_ℤ_of (negsuc a) (pos b) h k = ground arith
eq_ℤ_of (negsuc a) (negsuc b) h k = ground arith

-- The lines of the first `count` entries grow.
abbrev pub IsSorted : (ℕ → Entry) → ℕ → Type 0
IsSorted entries count =
    (i j : ℕ) → i < j → j < count → ltb_ℤ (entries i).code_line (entries j).code_line ≡ true

-- The lines before `p` are smaller, and those from `p` on are not.
pub record IsPosition (entries : ℕ → Entry) (count : ℕ) (code_line : ℤ) (p : ℕ) : Type 0 where
  pub within : p ≤ count
  pub below : (j : ℕ) → j < p → ltb_ℤ (entries j).code_line code_line ≡ true
  pub above : (j : ℕ) → p ≤ j → j < count → ltb_ℤ (entries j).code_line code_line ≡ false

-- A result is given, and it is the position.
abbrev pub IsFound : (ℕ → Entry) → ℕ → ℤ → Option ℕ → Type 0
IsFound entries count code_line none = ⊥
IsFound entries count code_line (some p) = IsPosition entries count code_line p

module _ (entries : ℕ → Entry) (count : ℕ) (sorted : IsSorted entries count) (code_line : ℤ) where
  record Interval (start mid end : ℕ) : Type 0 where
    ordered : start ≤ end
    inside : end < count
    below : (j : ℕ) → j < start → ltb_ℤ (entries j).code_line code_line ≡ true
    above : (j : ℕ) → end ≤ j → j < count → ltb_ℤ (entries j).code_line code_line ≡ false
    last : (mid ≡ end) ⊎ (mid + 1 ≡ start) ⊎ (mid ≡ start)

  up_to :
      (m : ℕ)
      → m < count
      → ltb_ℤ (entries m).code_line code_line ≡ true
      → (j : ℕ) → j < m + 1
      → ltb_ℤ (entries j).code_line code_line ≡ true
  up_to m lm h j lj = elim (Bool-cases (ltb j m)) [
    | inl a ↦
        ltb_ℤ_trans (entries j).code_line (entries m).code_line code_line
          (sorted j m (ground arith) lm) h
    | inr a ↦ let e : j ≡ m = ground arith in rw e h
  ]

  before :
      (m : ℕ)
      → m < count
      → ltb_ℤ code_line (entries m).code_line ≡ false
      → ltb_ℤ (entries m).code_line code_line ≡ false
      → (j : ℕ) → j < m
      → ltb_ℤ (entries j).code_line code_line ≡ true
  before m lm a b j lj = rw (sym (eq_ℤ_of (entries m).code_line code_line b a)) (sorted j m lj lm)

  from :
      (m : ℕ)
      → ltb_ℤ (entries m).code_line code_line ≡ false
      → (j : ℕ) → m ≤ j
      → j < count
      → ltb_ℤ (entries j).code_line code_line ≡ false
  from m h j lm lj = elim (Bool-cases (ltb m j)) [
    | inl a ↦ ground (arith, sorted m j (ground arith) lj)
    | inr a ↦ let e : j ≡ m = ground arith in rw e h
  ]

  -- What a round makes of the interval.
  abbrev Probed : (start end : ℕ) → Probe → Type 0
  Probed start end (found p) = IsPosition entries count code_line p
  Probed start end (narrowed s m e) = Interval s m e × (e - s < end - start)

  probe_lem :
      (start mid end : ℕ)
      → Interval start mid end
      → start < end
      → Probed start end (probe entries code_line start end)
  unfolding probe
  probe_lem start mid end v l =
      let m = start + (end - start) / 2 in
      elim (Bool-cases (ltb_ℤ code_line (entries m).code_line)) [
        | inl a ↦ rw a (
          record {
            ordered = omega arith;
            inside = omega (arith, v.inside);
            below = v.below;
            above = from m (ltb_ℤ_asym code_line (entries m).code_line a);
            last = inl refl;
          },
          omega arith,
        )
        | inr a ↦ elim (Bool-cases (ltb_ℤ (entries m).code_line code_line)) [
          | inl b ↦
              rw (a, b)
                (
                  record {
                    ordered = omega arith;
                    inside = v.inside;
                    below = up_to m (omega (arith, v.inside)) b;
                    above = v.above;
                    last = inr (inl refl);
                  },
                  omega arith,
                )
          | inr b ↦
              rw (a, b)
                (record {
                  within = omega (arith, v.inside);
                  below = λ j lj. before m (omega (arith, v.inside)) a b j lj;
                  above = from m b;
                })
        ]
      ]

  at_mid_lem :
      (start mid end : ℕ)
      → Interval start mid end
      → ltb start end ≡ false
      → IsPosition entries count code_line (at_mid entries code_line mid)
  at_mid_lem start mid end v l =
      let e : at_mid entries code_line mid ≡ start = ground (arith, v.above start, v.below mid) in
      rw e (record {
        within = omega (arith, v.ordered, v.inside);
        below = v.below;
        above = λ j lj. v.above j (ground (arith, lj, l));
      })

  next_lem :
      (start end : ℕ) (loop : (s m e : ℕ) → Option ℕ) (r : Probe)
      → Probed start end r
      → ((s m e : ℕ)
          → Interval s m e
          → e - s < end - start
          → IsFound entries count code_line (loop s m e))
      → IsFound entries count code_line (elim r [ found p ↦ some p | narrowed s m e ↦ loop s m e ])
  next_lem start end loop (found p) q k = q
  next_lem start end loop (narrowed s m e) q k = k s m e q.0 q.1

  bisect_loop_lem :
      (fuel start mid end : ℕ)
      → end - start < fuel
      → Interval start mid end
      → IsFound entries count code_line (bisect_loop fuel entries code_line start mid end)
  unfolding bisect_loop
  bisect_loop_lem zero start mid end enough v = omega (arith, enough)
  bisect_loop_lem (suc fuel) start mid end enough v = elim (Bool-cases (ltb start end)) [
    | inl a ↦ rw a (
        next_lem start end (bisect_loop fuel entries code_line) (probe entries code_line start end)
          (probe_lem start mid end v (ground arith))
          λ s m e w l. bisect_loop_lem fuel s m e (omega (arith, l, enough)) w)
    | inr a ↦ rw a (at_mid_lem start mid end v a)
  ]

  -- On a sorted array with an entry, the bisection ends within its fuel, with the position that has all
  -- smaller lines before it and none behind.
  pub bisect_code_objects_lem :
      0 < count → IsFound entries count code_line (bisect_code_objects entries count code_line)
  unfolding bisect_code_objects
  bisect_code_objects_lem some_entry =
      elim (Bool-cases (ltb 0 count && ltb_ℤ (entries (count - 1)).code_line code_line)) [
        | inl a ↦ rw a (record {
          within = omega arith;
          below = λ j lj.
              up_to (count - 1) (omega (arith, some_entry)) (ground (arith, a)) j
                (omega (arith, lj, some_entry));
          above = λ j l m. absurd (omega (arith, l, m));
        })
        | inr a ↦ rw a (
            bisect_loop_lem (suc count) 0 0 (count - 1) (omega arith) (record {
              ordered = omega arith;
              inside = omega (arith, some_entry);
              below = λ j l. absurd (omega (arith, l));
              above = from (count - 1) (ground (arith, a, some_entry));
              last = inr (inr refl);
            }))
      ]
