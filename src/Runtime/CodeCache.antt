-- ===== src/Runtime/CodeCache.antt =====
-- The cache of code objects for tracebacks: a sorted array with bisection.
use shmrpc.Prelude.{
  ℕ, zero, suc, ◌+◌, ◌-◌, ◌/◌, ℤ, pos, eq_ℤ, ltb_ℤ, ltb, leb, ◌==◌, Option, none, some, ◌&&◌, ◌||◌,
  not, if◌then◌else◌,
}
use shmrpc.Machine.State.{update}

-- `__Pyx_CodeObjectCacheEntry`; a code object is known by its number.
pub record Entry : Type 0 where
  pub code_line : ℤ
  pub code_object : ℕ

-- `struct __Pyx_CodeObjectCache`; the entries are NULL before the first insertion.
pub record Cache : Type 0 where
  pub count : ℕ
  pub max_count : ℕ
  pub entries : Option (ℕ → Entry)

abbrev pub empty_cache : Cache
empty_cache = record { count = 0; max_count = 0; entries = none }

-- How a round of the loop of `__pyx_bisect_code_objects` ends.
pub data Probe : Type 0 where
  found : ℕ → Probe
  narrowed : (start mid end : ℕ) → Probe

unfoldable pub probe : (ℕ → Entry) → ℤ → (start end : ℕ) → Probe
probe entries code_line start end =
    let mid = start + (end - start) / 2 in
    if ltb_ℤ code_line (entries mid).code_line
    then narrowed start mid mid
    else if ltb_ℤ (entries mid).code_line code_line
    then narrowed (mid + 1) mid end
    else found mid

-- Behind the loop.
abbrev pub at_mid : (ℕ → Entry) → ℤ → ℕ → ℕ
at_mid entries code_line mid = if ltb_ℤ (entries mid).code_line code_line then mid + 1 else mid

-- `none` means that the fuel ran out.
unfoldable pub bisect_loop : ℕ → (ℕ → Entry) → ℤ → (start mid end : ℕ) → Option ℕ
bisect_loop zero entries code_line start mid end = none
bisect_loop (suc fuel) entries code_line start mid end =
    if ltb start end
    then elim (probe entries code_line start end) [
      | found p ↦ some p
      | narrowed s m e ↦ bisect_loop fuel entries code_line s m e
    ]
    else some (at_mid entries code_line mid)

-- Each round makes the interval shorter, so `count` rounds are enough. Without an entry `end` is -1.
unfoldable pub bisect_code_objects : (ℕ → Entry) → ℕ → ℤ → Option ℕ
bisect_code_objects entries count code_line =
    if ltb 0 count && ltb_ℤ (entries (count - 1)).code_line code_line
    then some count
    else bisect_loop (suc count) entries code_line 0 0 (count - 1)

unfoldable pub find_at : (ℕ → Entry) → ℕ → ℤ → ℕ → Option ℕ
find_at entries count code_line p =
    if leb count p || not (eq_ℤ (entries p).code_line code_line)
    then none
    else some (entries p).code_object

unfoldable pub find_code_object : ℤ → Cache → Option ℕ
find_code_object code_line cache = if eq_ℤ code_line (pos 0) then none else elim cache.entries [
  | none ↦ none
  | some entries ↦ elim (bisect_code_objects entries cache.count code_line) [
    | none ↦ none
    | some p ↦ find_at entries cache.count code_line p
  ]
]

-- `for (i = count; i > pos; i--) entries[i] = entries[i-1]`
unfoldable pub shift : ℕ → ℕ → (ℕ → Entry) → ℕ → Entry
shift zero p entries = entries
shift (suc i) p entries =
    if ltb p (suc i) then shift i p (update entries (suc i) (entries i)) else entries

abbrev pub entry_of : ℤ → ℕ → Entry
entry_of code_line code_object = record { code_line = code_line; code_object = code_object }

-- The array and its length when there is room for one more. `memory` is what `PyMem_Malloc` or
-- `PyMem_Realloc` gives, with its content, which `PyMem_Realloc` replaces by the old entries.
unfoldable pub make_room : Option (ℕ → Entry) → Cache → (ℕ → Entry) → Option ((ℕ → Entry) × ℕ)
make_room memory cache entries =
    if cache.count == cache.max_count
    then elim memory [
      | none ↦ none
      | some m ↦
          some ((λ j. if ltb j cache.max_count then entries j else m j), cache.max_count + 64)
    ]
    else some (entries, cache.max_count)

abbrev pub put : ℤ → ℕ → Cache → ℕ → Option ((ℕ → Entry) × ℕ) → Cache
put code_line code_object cache p none = cache
put code_line code_object cache p (some (entries, max)) = record {
  count = cache.count + 1;
  max_count = max;
  entries = some (update (shift cache.count p entries) p (entry_of code_line code_object));
}

-- The insertion at the position that the bisection has found.
unfoldable pub insert_at : Option (ℕ → Entry) → ℤ → ℕ → Cache → (ℕ → Entry) → ℕ → Cache
insert_at memory code_line code_object cache entries p =
    if ltb p cache.count && eq_ℤ (entries p).code_line code_line
    then record cache {
      entries = some (update entries p (entry_of (entries p).code_line code_object));
    }
    else put code_line code_object cache p (make_room memory cache entries)

abbrev pub first_cache : ℤ → ℕ → Cache → Option (ℕ → Entry) → Cache
first_cache code_line code_object cache none = cache
first_cache code_line code_object cache (some m) = record {
  count = 1;
  max_count = 64;
  entries = some (update m 0 (entry_of code_line code_object));
}

unfoldable pub insert_code_object : Option (ℕ → Entry) → ℤ → ℕ → Cache → Cache
insert_code_object memory code_line code_object cache =
    if eq_ℤ code_line (pos 0) then cache else elim cache.entries [
      | none ↦ first_cache code_line code_object cache memory
      | some entries ↦ elim (bisect_code_objects entries cache.count code_line) [
        | none ↦ cache
        | some p ↦ insert_at memory code_line code_object cache entries p
      ]
    ]
