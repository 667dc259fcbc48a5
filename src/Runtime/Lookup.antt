-- ===== src/Runtime/Lookup.antt =====
-- The cache of code objects is a finite map.
use shmrpc.Prelude.{
  ℕ, zero, suc, ◌-◌, ◌<◌, ◌≤◌, ℤ, eq_ℤ, eq_ℤ_iff, ltb, leb, ◌&&◌, ◌≡◌, ◌≢◌, ◌⊎◌, none, some,
  Bool-cases, inl, inr, if◌then◌else◌, arith, refl,
}
use shmrpc.Machine.State.{update}
use shmrpc.Runtime.CodeCache.{Entry, Cache, shift, find_at}
use shmrpc.Runtime.Bisect.{IsSorted, IsPosition, ltb_ℤ_irrefl}

pub shift_lem :
    (i p : ℕ) (entries : ℕ → Entry) (j : ℕ)
    → shift i p entries j ≡ (if ltb p j && leb j i then entries (j - 1) else entries j)
unfolding shift
shift_lem zero p entries j = ground arith
shift_lem (suc i) p entries j = elim (Bool-cases (ltb p (suc i))) [
  | inl a ↦ rw a (ground (arith, a, shift_lem i p (update entries (suc i) (entries i)) j))
  | inr a ↦ rw a (ground (arith, a))
]

-- The entries are sorted and fit into the array, and there is one if the array is there.
abbrev pub IsCache : Cache → Type 0
IsCache cache = elim cache.entries [
  | none ↦ Unit {0}
  | some entries ↦
      IsSorted entries cache.count × (0 < cache.count) × (cache.count ≤ cache.max_count)
]

-- One of the first `count` entries holds the code object for the line.
abbrev pub Holds : (ℕ → Entry) → ℕ → ℤ → ℕ → Type 0
Holds entries count code_line object =
    (j : ℕ) × (j < count) × ((entries j).code_line ≡ code_line) × ((entries j).code_object ≡ object)

module _ (entries : ℕ → Entry) (count : ℕ) (sorted : IsSorted entries count) (code_line : ℤ) where
  position-Holds :
      (p object : ℕ)
      → IsPosition entries count code_line p
      → Holds entries count code_line object
      → (p < count) × ((entries p).code_line ≡ code_line) × ((entries p).code_object ≡ object)
  position-Holds p object q (j, lj, el, eo) =
      let e : p ≡ j =
        ground (arith, q.below j, q.above p, sorted p j, ltb_ℤ_irrefl code_line, el, lj) in
      rw e (lj, el, eo)

  pub find_at-Holds :
      (p object : ℕ)
      → IsPosition entries count code_line p
      → Holds entries count code_line object
      → find_at entries count code_line p ≡ some object
  unfolding find_at
  find_at-Holds p object q h =
      let (a, b, c) = position-Holds p object q h in
      ground (arith, a, b, c, eq_ℤ_iff (entries p).code_line code_line)

  pub find_at-absent :
      (p : ℕ)
      → ((j : ℕ) → j < count → (entries j).code_line ≢ code_line)
      → find_at entries count code_line p ≡ none
  unfolding find_at
  find_at-absent p h = ground (arith, h p, eq_ℤ_iff (entries p).code_line code_line)

  -- The line stands at its position, or nowhere.
  pub position-cases :
      (p : ℕ)
      → IsPosition entries count code_line p
      → ((p < count) × ((entries p).code_line ≡ code_line))
        ⊎ ((j : ℕ) → j < count → (entries j).code_line ≢ code_line)
  position-cases p q = elim (Bool-cases (ltb p count && eq_ℤ (entries p).code_line code_line)) [
    | inl a ↦ inl (ground (arith, a, eq_ℤ_iff (entries p).code_line code_line))
    | inr a ↦ inr λ j lj e.
        let (b, c, _) = position-Holds p (entries j).code_object q (j, lj, e, refl) in
        ground (arith, a, b, c, eq_ℤ_iff (entries p).code_line code_line)
  ]
