-- ===== src/Runtime/Insert.antt =====
-- `__pyx_insert_code_object` changes one line of the map that `__pyx_find_code_object` reads.
use shmrpc.Prelude.{
  ℕ, ◌+◌, ◌<◌, ◌≤◌, ℤ, pos, eq_ℤ, eq_ℤ_iff, ltb, ◌==◌, ◌&&◌, ◌≡◌, ◌≢◌, ◌⊎◌, Option, none, some,
  Bool-cases, Option-cases, inl, inr, if◌then◌else◌, arith, refl, sym,
}
use shmrpc.Machine.State.{update}
use shmrpc.Runtime.CodeCache.{
  Entry, Cache, entry_of, find_code_object, make_room, put, insert_at, first_cache,
  insert_code_object, bisect_code_objects,
}
use shmrpc.Runtime.Bisect.{IsSorted, IsPosition, IsFound, bisect_code_objects_lem}
use shmrpc.Runtime.Lookup.{IsCache}
use shmrpc.Runtime.Extends.{find-Extends, find-Holds, find-absent}
use shmrpc.Runtime.Placed.{placed-Extends, replaced-Extends}

-- What is known of the cache behind an insertion.
abbrev pub Inserted : Option (ℕ → Entry) → ℤ → ℕ → Cache → Cache → Type 0
Inserted memory code_line object before after =
    IsCache after
    × (((line : ℤ)
          → line ≢ pos 0
          → find_code_object line after
            ≡ (if eq_ℤ line code_line then some object else find_code_object line before))
        ⊎ ((memory ≡ none) × (after ≡ before)))

module _ (memory : Option (ℕ → Entry)) (code_line : ℤ) (object : ℕ) (proper : code_line ≢ pos 0)
    (count max : ℕ) where
  abbrev unfilled : Cache
  unfilled = record { count = count; max_count = max; entries = none }

  unfilled-find : (line : ℤ) → find_code_object line unfilled ≡ none
  unfolding find_code_object
  unfilled-find line = ground arith

  -- An array with one entry.
  first_lem :
      (m : Option (ℕ → Entry))
      → m ≡ memory
      → Inserted memory code_line object unfilled (first_cache code_line object unfilled m)
  first_lem none e = (tt, inr (sym e, refl))
  first_lem (some m) e =
      let array : ℕ → Entry = update m 0 (entry_of code_line object) in
      let sorted : IsSorted array 1 = λ i j l k. absurd (omega (arith, l, k)) in
      (
        (sorted, omega arith, omega arith),
        inl λ line good. elim (Bool-cases (eq_ℤ line code_line)) [
          | inl a ↦
              rw (a, (eq_ℤ_iff line code_line).0 a)
                (find-Holds array 1 64 sorted (omega arith) code_line proper object
                  (0, omega arith, refl, refl))
          | inr a ↦
              rw (a, unfilled-find line)
                (find-absent array 1 64 sorted (omega arith) line good
                  λ j l f. ground (arith, a, f, l, eq_ℤ_iff line code_line))
        ],
      )

  module _ (old : ℕ → Entry) (sorted : IsSorted old count) (filled : 0 < count)
      (fits : count ≤ max) where
    abbrev before : Cache
    before = record { count = count; max_count = max; entries = some old }

    -- The old entries are there, and there is room for one more.
    abbrev HasRoom : Option ((ℕ → Entry) × ℕ) → Type 0
    HasRoom none = memory ≡ none
    HasRoom (some (room, m)) = ((j : ℕ) → j < count → room j ≡ old j) × (count + 1 ≤ m)

    make_room_lem : HasRoom (make_room memory before old)
    unfolding make_room
    make_room_lem = elim (Bool-cases (count == max)) [
      | inl a ↦ rw a (elim (Option-cases memory) [
        | inl e ↦ rw e refl
        | inr (m, e) ↦ rw e (λ j l. ground (arith, l, fits), omega (arith, fits))
      ])
      | inr a ↦ rw a (λ j l. refl, ground (arith, a, fits))
    ]

    put_lem :
        (p : ℕ)
        → IsPosition old count code_line p
        → (p < count → (old p).code_line ≢ code_line)
        → (r : Option ((ℕ → Entry) × ℕ)) → HasRoom r
        → Inserted memory code_line object before (put code_line object before p r)
    put_lem p q absent none h = ((sorted, filled, fits), inr (h, refl))
    put_lem p q absent (some (room, m)) (same, more) =
        let x = placed-Extends old count sorted code_line object p q room same absent in
        (
          (x.sorted, omega arith, more),
          inl (find-Extends old count max sorted filled code_line object _ (count + 1) m x proper),
        )

    insert_at_lem :
        (p : ℕ)
        → IsPosition old count code_line p
        → Inserted memory code_line object before (insert_at memory code_line object before old p)
    unfolding insert_at
    insert_at_lem p q = elim (Bool-cases (ltb p count && eq_ℤ (old p).code_line code_line)) [
      | inl a ↦ rw a (
          let lp : p < count = ground (arith, a) in
          let e : (old p).code_line ≡ code_line =
            ground (arith, a, eq_ℤ_iff (old p).code_line code_line) in
          let x = replaced-Extends old count sorted code_line object p q lp e in
          (
            (x.sorted, filled, fits),
            inl (find-Extends old count max sorted filled code_line object _ count max x proper),
          ))
      | inr a ↦ rw a (
          put_lem p q (ground (arith, a, eq_ℤ_iff (old p).code_line code_line))
            (make_room memory before old) make_room_lem)
    ]

    insert_found :
        (o : Option ℕ)
        → IsFound old count code_line o
        → Inserted memory code_line object before
            (elim o [ none ↦ before | some p ↦ insert_at memory code_line object before old p ])
    insert_found none h = absurd h
    insert_found (some p) h = insert_at_lem p h

  insert_into :
      (entries : Option (ℕ → Entry))
      → let cache : Cache = record { count = count; max_count = max; entries = entries } in
        IsCache cache
        → Inserted memory code_line object cache (insert_code_object memory code_line object cache)
  unfolding insert_code_object
  insert_into none h = elim (Bool-cases (eq_ℤ code_line (pos 0))) [
    | inl a ↦ absurd (proper ((eq_ℤ_iff code_line (pos 0)).0 a))
    | inr a ↦ rw a (first_lem memory refl)
  ]
  insert_into (some old) (sorted, filled, fits) = elim (Bool-cases (eq_ℤ code_line (pos 0))) [
    | inl a ↦ absurd (proper ((eq_ℤ_iff code_line (pos 0)).0 a))
    | inr a ↦ rw a (
        insert_found old sorted filled fits (bisect_code_objects old count code_line)
          (bisect_code_objects_lem old count sorted code_line filled))
  ]

-- On a sorted cache, inserting a code object for a line that is not 0 gives a sorted cache again. The
-- lookup of any line then finds the object for the inserted line and the same as before for others,
-- unless there was no memory; then the cache is unchanged.
pub insert-Inserted :
    (memory : Option (ℕ → Entry)) (code_line : ℤ) (object : ℕ) (cache : Cache)
    → code_line ≢ pos 0
    → IsCache cache
    → Inserted memory code_line object cache (insert_code_object memory code_line object cache)
insert-Inserted memory code_line object cache proper h =
    insert_into memory code_line object proper cache.count cache.max_count cache.entries h
