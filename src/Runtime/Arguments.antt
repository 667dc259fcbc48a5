-- ===== src/Runtime/Arguments.antt =====
-- What the wrappers of `__cinit__`, `init_mmap` and `lock` have in common: the lookup of keywords, with
-- `__Pyx_ParseOptionalKeywords`, and the conversion of values. All errors of the lookup are a
-- TypeError; their messages are left out.
use shmrpc.Prelude.{
  ℕ, zero, suc, ◌+◌, ◌-◌, ltb, ℤ, String, str_eq, Option, none, some, Bool, false, if◌then◌else◌,
  List, [], ◌∷◌,
}
use shmrpc.Machine.State.{update}
use shmrpc.Runtime.IntFromPy.{
  PyLong, Object, bytes, bytearray, Conversion, value, type_error, null_pointer, pyint_as_int,
}

-- A key of a dictionary of keyword arguments.
pub data Key : Type 0 where
  str : String → Key
  not_str : Key

pub record Item : Type 0 where
  pub key : Key
  pub item : Object

abbrev pub key_is : String → Key → Bool
key_is name (str s) = str_eq name s
key_is name not_str = false

-- `PyDict_Size` and `__Pyx_PyDict_GetItemStr`
abbrev pub dict_size : List Item → ℕ
dict_size [] = 0
dict_size (i ∷ d) = dict_size d + 1

abbrev pub get_item : String → List Item → Option Object
get_item name [] = none
get_item name (i ∷ d) = if key_is name i.key then some i.item else get_item name d

-- `PyObject *values[]`
abbrev pub Values : Type 0
Values = ℕ → Option Object

abbrev pub no_values : Values
no_values _ = none

-- The index of the name that is the key, from the index `i` of the first name on.
abbrev pub index_of : List String → ℕ → Key → Option ℕ
index_of [] i k = none
index_of (n ∷ ns) i k = if key_is n k then some i else index_of ns (i + 1) k

-- `first_kw_arg = argnames + num_pos_args`
abbrev pub first_kw_arg : List String → ℕ → List String
first_kw_arg names zero = names
first_kw_arg [] (suc p) = []
first_kw_arg (n ∷ names) (suc p) = first_kw_arg names p

-- A key that is no name, no name that is left, or no string is an error, whichever it is.
unfoldable pub parse_optional_keywords : List String → ℕ → List Item → Values → Conversion Values
parse_optional_keywords names num_pos_args [] values = value values
parse_optional_keywords names num_pos_args (i ∷ kwds) values =
    elim (index_of (first_kw_arg names num_pos_args) num_pos_args i.key) [
      | some j ↦ parse_optional_keywords names num_pos_args kwds (update values j (some i.item))
      | none ↦ type_error
    ]

-- A case of the `switch` on the number of positional arguments, for an argument with a default: look
-- its keyword up, while the count of those that are left is not 0.
abbrev pub take_keyword : String → ℕ → List Item → Values × ℕ → Values × ℕ
take_keyword name i kwds (values, kw_args) =
    if ltb 0 kw_args
    then elim (get_item name kwds) [
      | none ↦ (values, kw_args)
      | some v ↦ (update values i (some v), kw_args - 1)
    ]
    else (values, kw_args)

-- For an argument without a default.
abbrev pub require_keyword : String → ℕ → List Item → Values × ℕ → Conversion (Values × ℕ)
require_keyword name i kwds (values, kw_args) = elim (get_item name kwds) [
  | none ↦ type_error
  | some v ↦ value (update values i (some v), kw_args - 1)
]

abbrev pub parse_rest : List String → ℕ → List Item → Values × ℕ → Conversion Values
parse_rest names pos_args kwds (values, kw_args) =
    if ltb 0 kw_args then parse_optional_keywords names pos_args kwds values else value values

-- `__Pyx_PyObject_AsWritableString`
abbrev pub as_writable_string : Object → Conversion String
as_writable_string (bytes s) = value s
as_writable_string (bytearray s) = value s
as_writable_string _ = type_error

abbrev pub string_argument : Option Object → Conversion String
string_argument none = null_pointer
string_argument (some o) = as_writable_string o

module _ (as_long : PyLong → Option ℤ) where
  abbrev pub required_int : Option Object → Conversion ℤ
  required_int none = null_pointer
  required_int (some o) = pyint_as_int as_long o

  -- An argument that is not given has a default.
  abbrev pub int_argument : Option Object → ℤ → Conversion ℤ
  int_argument none v = value v
  int_argument (some o) v = pyint_as_int as_long o
