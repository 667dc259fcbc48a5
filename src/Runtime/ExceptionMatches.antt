-- ===== src/Runtime/ExceptionMatches.antt =====
-- Which exceptions an `except` clause catches: `__Pyx_InBases`, `__Pyx_IsSubtype`, and the matching of
-- exceptions, as they are compiled for CPython 3. Objects are numbers, compared like pointers.
use shmrpc.Prelude.{
  ℕ, zero, suc, ◌==◌, Option, none, some, Bool, true, false, ◌||◌, if◌then◌else◌, List, [], ◌∷◌,
}

pub data Kind : Type 0 where
  exception_class : Kind
  tuple : List ℕ → Kind
  other : Kind

-- What the code reads of a type or an object: `tp_base`, `tp_mro`, `PyExceptionClass_Check`,
-- `PyTuple_Check` and the items of a tuple; and `PyBaseObject_Type`.
pub record Objects : Type 0 where
  pub tp_base : ℕ → Option ℕ
  pub tp_mro : ℕ → Option (List ℕ)
  pub kind : ℕ → Kind
  pub base_object : ℕ

abbrev pub mem : ℕ → List ℕ → Bool
mem a [] = false
mem a (b ∷ bs) = (b == a) || mem a bs

-- The second result, where the first is 0.
abbrev pub or_then : Option Bool → Option Bool → Option Bool
or_then (some false) r = r
or_then (some true) r = some true
or_then none r = none

-- `given_exception_matches` of the interpreter, for what is no exception class.
module _ (o : Objects) (py_given_exception_matches : ℕ → ℕ → Bool) where
  -- `none`: the fuel does not suffice.
  unfoldable pub in_bases : ℕ → ℕ → ℕ → Option Bool
  in_bases zero a b = none
  in_bases (suc fuel) a b = elim (o.tp_base a) [
    | none ↦ some (b == o.base_object)
    | some base ↦ if base == b then some true else in_bases fuel base b
  ]

  unfoldable pub is_subtype : ℕ → ℕ → ℕ → Option Bool
  unfolding in_bases
  is_subtype fuel a b =
      if a == b
      then some true
      else elim (o.tp_mro a) [ some mro ↦ some (mem b mro) | none ↦ in_bases fuel a b ]

  -- `__Pyx_inner_PyErr_GivenExceptionMatches2`
  unfoldable pub inner_matches2 : ℕ → ℕ → Option ℕ → ℕ → Option Bool
  unfolding is_subtype
  inner_matches2 fuel err none exc_type2 = is_subtype fuel err exc_type2
  inner_matches2 fuel err (some exc_type1) exc_type2 =
      or_then (is_subtype fuel err exc_type1) (is_subtype fuel err exc_type2)

  unfoldable pub any_class_matches : ℕ → ℕ → List ℕ → Option Bool
  unfolding inner_matches2
  any_class_matches fuel exc_type [] = some false
  any_class_matches fuel exc_type (t ∷ ts) = elim (o.kind t) [
    | exception_class ↦
        or_then (inner_matches2 fuel exc_type none t) (any_class_matches fuel exc_type ts)
    | _ ↦ any_class_matches fuel exc_type ts
  ]

  -- `__Pyx_PyErr_GivenExceptionMatchesTuple`
  unfoldable pub given_matches_tuple : ℕ → ℕ → List ℕ → Option Bool
  unfolding any_class_matches
  given_matches_tuple fuel exc_type ts =
      if mem exc_type ts then some true else any_class_matches fuel exc_type ts

  -- `__Pyx_PyErr_GivenExceptionMatches`
  unfoldable pub given_matches : ℕ → ℕ → ℕ → Option Bool
  unfolding inner_matches2 given_matches_tuple
  given_matches fuel err exc_type = if err == exc_type then some true else elim (o.kind err) [
    | exception_class ↦ elim (o.kind exc_type) [
      | exception_class ↦ inner_matches2 fuel err none exc_type
      | tuple ts ↦ given_matches_tuple fuel err ts
      | other ↦ some (py_given_exception_matches err exc_type)
    ]
    | _ ↦ some (py_given_exception_matches err exc_type)
  ]

  -- `__Pyx_PyErr_GivenExceptionMatches2`
  unfoldable pub given_matches2 : ℕ → ℕ → ℕ → ℕ → Option Bool
  unfolding inner_matches2
  given_matches2 fuel err exc_type1 exc_type2 =
      if (err == exc_type1) || (err == exc_type2) then some true else elim (o.kind err) [
        | exception_class ↦ inner_matches2 fuel err (some exc_type1) exc_type2
        | _ ↦
            some
              (py_given_exception_matches err exc_type1 || py_given_exception_matches err exc_type2)
      ]

  unfoldable pub any_matches : ℕ → ℕ → List ℕ → Option Bool
  unfolding given_matches
  any_matches fuel exc_type [] = some false
  any_matches fuel exc_type (t ∷ ts) =
      or_then (given_matches fuel exc_type t) (any_matches fuel exc_type ts)

  -- `__Pyx_PyErr_ExceptionMatchesTuple`
  unfoldable pub exception_matches_tuple : ℕ → ℕ → List ℕ → Option Bool
  unfolding any_matches
  exception_matches_tuple fuel exc_type ts =
      if mem exc_type ts then some true else any_matches fuel exc_type ts

  -- `__Pyx_PyErr_ExceptionMatchesInState`, on the type of the pending exception.
  unfoldable pub exception_matches : ℕ → Option ℕ → ℕ → Option Bool
  unfolding given_matches exception_matches_tuple
  exception_matches fuel none err = some false
  exception_matches fuel (some exc_type) err =
      if exc_type == err then some true else elim (o.kind err) [
        | tuple ts ↦ exception_matches_tuple fuel exc_type ts
        | _ ↦ given_matches fuel exc_type err
      ]
