-- ===== src/Runtime/Placed.antt =====
-- The arrays that `__pyx_insert_code_object` makes.
use shmrpc.Prelude.{
  ℕ, ◌+◌, ◌-◌, ◌<◌, ◌≤◌, ℤ, ltb_ℤ, ltb, ◌==◌, ◌≡◌, ◌≢◌, ◌⊎◌, ◌∙◌, true, Bool-cases, inl, inr, arith,
  refl, ap,
}
use shmrpc.Machine.State.{update}
use shmrpc.Runtime.CodeCache.{Entry, shift, entry_of}
use shmrpc.Runtime.Bisect.{IsSorted, IsPosition, eq_ℤ_of}
use shmrpc.Runtime.Lookup.{Holds, shift_lem}
use shmrpc.Runtime.Extends.{Extends}

module _ (old : ℕ → Entry) (count : ℕ) (sorted : IsSorted old count) (code_line : ℤ) (object p : ℕ)
    (position : IsPosition old count code_line p) where
  -- The object of an entry that is there is replaced.
  pub replaced-Extends :
      p < count
      → (old p).code_line ≡ code_line
      → Extends old count code_line object (update old p (entry_of (old p).code_line object)) count
  replaced-Extends lp e = record {
    sorted = λ i j lt lj. ground (arith, sorted i j lt lj);
    has = (p, lp, ground (arith, e), ground arith);
    kept = λ j lj ne. (j, lj, ground (arith, e, ne), ground (arith, e, ne));
    no_more = λ k lk ne. (k, lk, ground (arith, e, ne), ground (arith, e, ne));
  }

  -- Room is made for a new entry, in an array that begins as the old one.
  module _ (room : ℕ → Entry) (same : (j : ℕ) → j < count → room j ≡ old j)
      (absent : p < count → (old p).code_line ≢ code_line) where
    abbrev pub placed : ℕ → Entry
    placed = update (shift count p room) p (entry_of code_line object)

    -- The three parts of the new array.
    placed-cases :
        (k : ℕ)
        → k < count + 1
        → ((k < p) × (placed k ≡ old k))
          ⊎ ((k ≡ p) × (placed k ≡ entry_of code_line object))
          ⊎ ((p < k) × (placed k ≡ old (k - 1)))
    placed-cases k l = elim (Bool-cases (ltb k p)) [
      | inl a ↦ inl (ground (arith, shift_lem count p room k, same k, position.within, a))
      | inr a ↦ elim (Bool-cases (k == p)) [
        | inl b ↦ inr (inl (ground (arith, b)))
        | inr b ↦ inr (inr (ground (arith, shift_lem count p room k, same (k - 1), a, b, l)))
      ]
    ]

    -- The lines from `p` on are greater.
    above : (j : ℕ) → p ≤ j → j < count → ltb_ℤ code_line (old j).code_line ≡ true
    above j l m = elim (Bool-cases (ltb_ℤ code_line (old j).code_line)) [
      | inl a ↦ a
      | inr a ↦
          let e : (old j).code_line ≡ code_line =
            eq_ℤ_of (old j).code_line code_line (position.above j l m) a in
          ground (arith, e, l, m, absent, sorted p j, position.above p)
    ]

    placed-IsSorted : IsSorted placed (count + 1)
    placed-IsSorted i j lt lj = elim (placed-cases i (omega (arith, lt, lj))) [
      | inl (a, e) ↦ elim (placed-cases j lj) [
        | inl (b, f) ↦ rw (e, f) (sorted i j lt (omega (arith, b, position.within)))
        | inr (inl (b, f)) ↦ rw (e, f) (position.below i a)
        | inr (inr (b, f)) ↦
            rw (e, f) (sorted i (j - 1) (omega (arith, a, b)) (omega (arith, lj, b)))
      ]
      | inr (inl (a, e)) ↦ elim (placed-cases j lj) [
        | inl (b, f) ↦ absurd (omega (arith, a, b, lt))
        | inr (inl (b, f)) ↦ absurd (omega (arith, a, b, lt))
        | inr (inr (b, f)) ↦ rw (e, f) (above (j - 1) (omega (arith, b)) (omega (arith, lj, b)))
      ]
      | inr (inr (a, e)) ↦ elim (placed-cases j lj) [
        | inl (b, f) ↦ absurd (omega (arith, a, b, lt))
        | inr (inl (b, f)) ↦ absurd (omega (arith, a, b, lt))
        | inr (inr (b, f)) ↦
            rw (e, f) (sorted (i - 1) (j - 1) (omega (arith, a, lt)) (omega (arith, lj, b)))
      ]
    ]

    placed-kept :
        (j : ℕ) → j < count → Holds placed (count + 1) (old j).code_line (old j).code_object
    placed-kept j lj = elim (Bool-cases (ltb j p)) [
      | inl a ↦ elim (placed-cases j (omega (arith, lj))) [
        | inl (b, f) ↦ (j, omega (arith, lj), rw f refl, rw f refl)
        | inr (inl (b, f)) ↦ ground (arith, a, b)
        | inr (inr (b, f)) ↦ ground (arith, a, b)
      ]
      | inr a ↦ elim (placed-cases (j + 1) (omega (arith, lj))) [
        | inl (b, f) ↦ ground (arith, a, b)
        | inr (inl (b, f)) ↦ ground (arith, a, b)
        | inr (inr (b, f)) ↦
            let e : j + 1 - 1 ≡ j = omega arith in
            (
              j + 1,
              omega (arith, lj),
              ap (λ e. e.code_line) f ∙ ap (λ k. (old k).code_line) e,
              ap (λ e. e.code_object) f ∙ ap (λ k. (old k).code_object) e,
            )
      ]
    ]

    placed-no_more :
        (k : ℕ)
        → k < count + 1
        → (placed k).code_line ≢ code_line
        → Holds old count (placed k).code_line (placed k).code_object
    placed-no_more k lk ne = elim (placed-cases k lk) [
      | inl (b, f) ↦ (k, omega (arith, b, position.within), rw f refl, rw f refl)
      | inr (inl (b, f)) ↦ absurd (ne (ap (λ e. e.code_line) f))
      | inr (inr (b, f)) ↦ (k - 1, omega (arith, b, lk), rw f refl, rw f refl)
    ]

    pub placed-Extends : Extends old count code_line object placed (count + 1)
    placed-Extends = record {
      sorted = placed-IsSorted;
      has = (p, omega (arith, position.within), ground arith, ground arith);
      kept = λ j lj _. placed-kept j lj;
      no_more = placed-no_more;
    }
