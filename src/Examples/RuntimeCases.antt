-- ===== src/Examples/RuntimeCases.antt =====
-- The theorems on the cache of code objects at a cache with two lines, on the conversion to a C integer
-- at an int that a long can hold and an int cannot, and on the lookup of a global name that changes.
use shmrpc.Prelude.{
  ℕ, ◌+◌, ◌*◌, ℤ, pos, negsuc, Option, some, none, true, if◌then◌else◌, List, ◌∷◌, [], ◌≡◌, arith,
  refl,
}
use shmrpc.Runtime.IntFromPy.{
  PyLong, python_int, value, overflow_error, pyint_as_int, pyint_as_long,
}
use shmrpc.Runtime.IntBounds.{fits, value_of, pyint_as_int_lem}
use shmrpc.Runtime.CodeCache.{
  Entry, Cache, entry_of, insert_at, make_room, shift, find_at, bisect_loop, probe,
  insert_code_object, find_code_object, bisect_code_objects,
}
use shmrpc.Runtime.Bisect.{IsSorted}
use shmrpc.Runtime.Insert.{Inserted, insert-Inserted}
use shmrpc.Runtime.GlobalNames.{VersionedDict, Event, look_up, change}
use shmrpc.Runtime.Traceback.{Trace, not_there}

-- Lines 3 and 7.
abbrev two_lines : ℕ → Entry
two_lines j = entry_of (pos (3 + 4 * j)) j

two_lines-IsSorted : IsSorted two_lines 2
two_lines-IsSorted i j l k = ground arith

abbrev two_cache : Cache
two_cache = record { count = 2; max_count = 64; entries = some two_lines }

insert-Inserted_example :
    Inserted none (pos 5) 9 two_cache (insert_code_object none (pos 5) 9 two_cache)
insert-Inserted_example =
    insert-Inserted none (pos 5) 9 two_cache (λ e. ground arith)
      (two_lines-IsSorted, omega arith, omega arith)

-- Line 5 goes between the two, and then all three are found.
three_found :
    let cache = insert_code_object none (pos 5) 9 two_cache in
    (find_code_object (pos 3) cache ≡ some 0)
    × (find_code_object (pos 5) cache ≡ some 9)
    × (find_code_object (pos 7) cache ≡ some 1)
    × (find_code_object (pos 4) cache ≡ none)
unfolding insert_code_object insert_at make_room shift find_code_object find_at bisect_code_objects
    bisect_loop probe
three_found = (refl, refl, refl, refl)

-- -(2 * 2 ^ 30 + 5)
abbrev below_int : PyLong
below_int = record { negative = true; digits = 5 ∷ 2 ∷ [] }

abbrev pub exact_long : PyLong → Option ℤ
exact_long x = if fits 64 (value_of x) then some (value_of x) else none

pyint_as_int_lem_example :
    (pyint_as_int exact_long (python_int below_int) ≡ overflow_error)
    × (pyint_as_long exact_long (python_int below_int) ≡ value (negsuc 2147483652))
pyint_as_int_lem_example =
    pyint_as_int_lem exact_long (λ x. refl) below_int (omega arith, (omega arith, tt))

abbrev untraced : Trace
untraced = record { cache = two_cache; use_cline = not_there; entries = [] }

-- Python line 5 of the C line 70.

abbrev module_dict : VersionedDict
module_dict = record { version = 1; items = λ n. none }

-- The builtins have 3 by this name; the module binds it to 4, and then no more.
abbrev looked_up : List Event
looked_up =
    look_up (some 3)
    ∷ look_up (some 3)
    ∷ change "error" (some 4) 0
    ∷ look_up (some 3)
    ∷ look_up (some 3)
    ∷ change "error" none 2
    ∷ look_up none
    ∷ []
