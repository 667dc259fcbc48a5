-- ===== src/Runtime/Binding/Counting.antt =====
-- The size of a dictionary of keyword arguments, counted by names.
use shmrpc.Prelude.{
  ℕ, ◌+◌, ◌==◌, String, none, some, true, if◌then◌else◌, List, [], ◌∷◌, ◌≡◌, arith, refl,
}
use shmrpc.Runtime.Arguments.{Item, key_is, dict_size, get_item}
use shmrpc.Runtime.Binding.{is_name, known, IsDict, Distinct}

abbrev pub has : String → List Item → ℕ
has name d = elim (get_item name d) [ none ↦ 0 | some _ ↦ 1 ]

-- How many of the names are keys.
abbrev pub found : List String → List Item → ℕ
found [] d = 0
found (n ∷ ns) d = has n d + found ns d

-- How many keys are no names.
abbrev pub others : List String → List Item → ℕ
others ns [] = 0
others ns (i ∷ d) = if is_name ns i.key then others ns d else others ns d + 1

pub known-others : (ns : List String) (d : List Item) → known ns d ≡ (others ns d == 0)
known-others ns [] = refl
known-others ns (i ∷ d) = ground (arith, known-others ns d)

found-nil : (ns : List String) → found ns [] ≡ 0
found-nil [] = refl
found-nil (n ∷ ns) = ground (arith, found-nil ns)

found-cons :
    (ns : List String) (i : Item) (d : List Item)
    → Distinct ns
    → ((name : String) → key_is name i.key ≡ true → get_item name d ≡ none)
    → found ns (i ∷ d) ≡ (if is_name ns i.key then found ns d + 1 else found ns d)
found-cons [] i d differ new = refl
found-cons (n ∷ ns) i d differ new =
    ground (arith, differ.0 i.key, new n, found-cons ns i d differ.1 new)

pub size_lem :
    (ns : List String) (d : List Item)
    → Distinct ns
    → IsDict d
    → dict_size d ≡ found ns d + others ns d
size_lem ns [] differ u = ground (arith, found-nil ns)
size_lem ns (i ∷ d) differ u =
    ground (arith, found-cons ns i d differ u.0, size_lem ns d differ u.1)
