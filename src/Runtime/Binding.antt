-- ===== src/Runtime/Binding.antt =====
-- How Python binds the arguments of a call to the parameters of a function.
pub mod Counting
pub mod Keywords
pub mod Calls
pub mod Defined
use shmrpc.Prelude.{
  ℕ, ◌≡◌, suc, ◌+◌, ◌-◌, leb, String, Option, none, some, Bool, true, false, ◌||◌, ◌&&◌,
  if◌then◌else◌, List, [], ◌∷◌, ◌++◌,
}
use shmrpc.Runtime.IntFromPy.{Object, Conversion, value, type_error}
use shmrpc.Runtime.Arguments.{Key, Item, key_is, get_item, first_kw_arg}

abbrev pub length {ℓ} : {A : Type ℓ} → List A → ℕ
length [] = 0
length (x ∷ xs) = suc (length xs)

abbrev pub is_name : List String → Key → Bool
is_name [] k = false
is_name (n ∷ ns) k = key_is n k || is_name ns k

-- Every key is one of the names.
abbrev pub known : List String → List Item → Bool
known ns [] = true
known ns (i ∷ d) = is_name ns i.key && known ns d

abbrev pub is_some : Option Object → Bool
is_some none = false
is_some (some _) = true

-- The first `required` names are among the keys.
abbrev pub have : ℕ → List String → List Item → Bool
have (suc required) (n ∷ ns) d = is_some (get_item n d) && have required ns d
have _ _ d = true

abbrev pub lookups : List String → List Item → List (Option Object)
lookups [] d = []
lookups (n ∷ ns) d = get_item n d ∷ lookups ns d

abbrev pub given : List Object → List (Option Object)
given [] = []
given (a ∷ args) = some a ∷ given args

-- The values of the parameters with these names, the first `required` of them without a default.
-- Arguments given by position come first; the others are found by name.
abbrev pub bound : List String → ℕ → List Object → List Item → Conversion (List (Option Object))
bound names required args d =
    let rest = first_kw_arg names (length args) in
    if leb (length args) (length names) && (known rest d && have (required - length args) rest d)
    then value (given args ++ lookups rest d)
    else type_error

-- The keys of a dictionary are different from each other.
abbrev pub IsDict : List Item → Type 0
IsDict [] = Unit {0}
IsDict (i ∷ d) = ((name : String) → key_is name i.key ≡ true → get_item name d ≡ none) × IsDict d

-- No two names are one key.
abbrev pub Distinct : List String → Type 0
Distinct [] = Unit {0}
Distinct (n ∷ ns) = ((k : Key) → key_is n k ≡ true → is_name ns k ≡ false) × Distinct ns
