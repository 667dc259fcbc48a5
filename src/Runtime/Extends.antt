-- ===== src/Runtime/Extends.antt =====
-- An array of the cache that holds one line more, seen through the lookup.
use shmrpc.Prelude.{
  ℕ, ◌<◌, ℤ, pos, eq_ℤ, eq_ℤ_iff, ◌≡◌, ◌≢◌, ◌⊎◌, ◌∙◌, Option, none, some, false, Bool-cases, inl,
  inr, if◌then◌else◌, arith, refl, sym,
}
use shmrpc.Runtime.CodeCache.{Entry, Cache, find_at, find_code_object, bisect_code_objects}
use shmrpc.Runtime.Bisect.{IsSorted, IsPosition, IsFound, bisect_code_objects_lem}
use shmrpc.Runtime.Lookup.{Holds, find_at-Holds, find_at-absent, position-cases}

-- The array `new` holds what `old` holds, but for the line, for which it holds the object.
pub record Extends (old : ℕ → Entry) (count : ℕ) (code_line : ℤ) (object : ℕ) (new : ℕ → Entry)
    (new_count : ℕ) : Type 0 where
  pub sorted : IsSorted new new_count
  pub has : Holds new new_count code_line object
  pub kept :
      (j : ℕ)
      → j < count
      → (old j).code_line ≢ code_line
      → Holds new new_count (old j).code_line (old j).code_object
  pub no_more :
      (k : ℕ)
      → k < new_count
      → (new k).code_line ≢ code_line
      → Holds old count (new k).code_line (new k).code_object

-- The lookup in an array that is sorted and has an entry.
module _ (entries : ℕ → Entry) (count max : ℕ) (sorted : IsSorted entries count)
    (filled : 0 < count) (code_line : ℤ) (proper : code_line ≢ pos 0) where
  abbrev cache : Cache
  cache = record { count = count; max_count = max; entries = some entries }

  found_by :
      (o : Option ℕ) (r : Option ℕ)
      → IsFound entries count code_line o
      → ((p : ℕ) → IsPosition entries count code_line p → find_at entries count code_line p ≡ r)
      → elim o [ none ↦ none | some p ↦ find_at entries count code_line p ] ≡ r
  found_by none r h k = absurd h
  found_by (some p) r h k = k p h

  find-by :
      (r : Option ℕ)
      → ((p : ℕ) → IsPosition entries count code_line p → find_at entries count code_line p ≡ r)
      → find_code_object code_line cache ≡ r
  unfolding find_code_object
  find-by r k = elim (Bool-cases (eq_ℤ code_line (pos 0))) [
    | inl a ↦ ground (arith, a, eq_ℤ_iff code_line (pos 0))
    | inr a ↦ rw a (
        found_by (bisect_code_objects entries count code_line) r
          (bisect_code_objects_lem entries count sorted code_line filled) k)
  ]

  pub find-Holds :
      (o : ℕ) → Holds entries count code_line o → find_code_object code_line cache ≡ some o
  find-Holds o h = find-by (some o) λ p q. find_at-Holds entries count sorted code_line p o q h

  pub find-absent :
      ((j : ℕ) → j < count → (entries j).code_line ≢ code_line)
      → find_code_object code_line cache ≡ none
  find-absent h = find-by none λ p q. find_at-absent entries count sorted code_line p h

  -- The line is held, or by no entry.
  held-or-absent :
      ((j : ℕ) × (j < count) × ((entries j).code_line ≡ code_line))
      ⊎ ((j : ℕ) → j < count → (entries j).code_line ≢ code_line)
  held-or-absent =
      by (bisect_code_objects entries count code_line)
        (bisect_code_objects_lem entries count sorted code_line filled)
    where
      by :
          (o : Option ℕ)
          → IsFound entries count code_line o
          → ((j : ℕ) × (j < count) × ((entries j).code_line ≡ code_line))
            ⊎ ((j : ℕ) → j < count → (entries j).code_line ≢ code_line)
      by none h = absurd h
      by (some p) h = elim (position-cases entries count sorted code_line p h) [
        | inl a ↦ inl (p, a.0, a.1)
        | inr a ↦ inr a
      ]

module _ (old : ℕ → Entry) (count max : ℕ) (sorted : IsSorted old count) (filled : 0 < count)
    (code_line : ℤ) (object : ℕ) (new : ℕ → Entry) (new_count new_max : ℕ)
    (extends : Extends old count code_line object new new_count) (proper : code_line ≢ pos 0) where
  new_filled : 0 < new_count
  new_filled = let (j, lj, _, _) = extends.has in omega (arith, lj)

  pub find-Extends :
      (line : ℤ)
      → line ≢ pos 0
      → find_code_object line
          (record { count = new_count; max_count = new_max; entries = some new })
        ≡ (if eq_ℤ line code_line
            then some object
            else find_code_object line
                (record { count = count; max_count = max; entries = some old }))
  find-Extends line good = elim (Bool-cases (eq_ℤ line code_line)) [
    | inl a ↦
        let e : line ≡ code_line = (eq_ℤ_iff line code_line).0 a in
        rw (a, e)
          (find-Holds new new_count new_max extends.sorted new_filled code_line proper object
            extends.has)
    | inr a ↦ rw a (other a)
  ]
    where
      other :
          eq_ℤ line code_line ≡ false
          → find_code_object line
              (record { count = new_count; max_count = new_max; entries = some new })
            ≡ find_code_object line (record { count = count; max_count = max; entries = some old })
      other a = elim (held-or-absent old count max sorted filled line good) [
        | inl (j, lj, e) ↦
            find-Holds new new_count new_max extends.sorted new_filled line good (old j).code_object
              (rw (sym e) (extends.kept j lj (ground (arith, a, e, eq_ℤ_iff line code_line))))
            ∙ sym (
                find-Holds old count max sorted filled line good (old j).code_object
                  (j, lj, e, refl))
        | inr absent ↦
            find-absent new new_count new_max extends.sorted new_filled line good (λ k lk e.
              let (j, lj, f, _) =
                extends.no_more k lk (ground (arith, a, e, eq_ℤ_iff line code_line)) in
              absent j lj (f ∙ e))
            ∙ sym (find-absent old count max sorted filled line good absent)
      ]
