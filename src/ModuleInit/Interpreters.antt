-- ===== src/ModuleInit/Interpreters.antt =====
-- `__pyx_pymod_create`: one interpreter of the process can load the module, and what its dictionary
-- takes from the import specification.
use shmrpc.Prelude.{
  ℕ, ◌==◌, ℤ, eq_ℤ, minus_one, String, Option, none, some, Bool, true, false, not, ◌||◌,
  if◌then◌else◌, List, [], ◌∷◌, ◌≡◌, refl, arith, Bool-cases, inl, inr,
}
use shmrpc.Machine.State.{bind_name}

-- The result of `__Pyx_check_single_interpreter`; `main_interpreter_id` is returned with it.
pub data Check : Type 0 where
  passed : Check
  no_id : Check
  import_error : Check

unfoldable pub check_single_interpreter : ℤ → ℤ → Check × ℤ
check_single_interpreter current_id main_interpreter_id =
    if eq_ℤ main_interpreter_id minus_one
    then ((if eq_ℤ current_id minus_one then no_id else passed), current_id)
    else if not (eq_ℤ main_interpreter_id current_id)
    then (import_error, main_interpreter_id)
    else (passed, main_interpreter_id)

-- An attribute of the specification: an object, none there, or an error in looking it up.
pub data Attr : Type 0 where
  found : ℕ → Attr
  attribute_error : Attr
  raises : Attr

pub record Spec : Type 0 where
  pub name : Attr
  pub loader : Attr
  pub origin : Attr
  pub parent : Attr
  pub submodule_search_locations : Attr

abbrev pub Dict : Type 0
Dict = String → Option ℕ

-- A new module with its dictionary, the module that is loaded, or NULL.
pub data Created : Type 0 where
  new_module : Dict → Created
  same_module : ℕ → Created
  null : Created

-- `py_none` is `Py_None`; `set_fails` and `alloc_fails` say which calls of the interpreter fail.
module _ (py_none : ℕ) (set_fails : String → Bool) (alloc_fails : Bool) where
  -- `none`: -1.
  unfoldable pub copy_spec_to_module : Attr → String → Bool → Dict → Option Dict
  copy_spec_to_module (found v) to_name allow_none d =
      if allow_none || not (v == py_none)
      then (if set_fails to_name then none else some (bind_name d to_name (some v)))
      else some d
  copy_spec_to_module attribute_error to_name allow_none d = some d
  copy_spec_to_module raises to_name allow_none d = none

  unfoldable pub and_copy : Option Dict → Attr → String → Bool → Option Dict
  unfolding copy_spec_to_module
  and_copy none a to_name allow_none = none
  and_copy (some d) a to_name allow_none = copy_spec_to_module a to_name allow_none d

  unfoldable pub copy_all : Spec → Dict → Option Dict
  unfolding copy_spec_to_module and_copy
  copy_all spec d =
      and_copy
        (and_copy
          (and_copy (copy_spec_to_module spec.loader "__loader__" true d) spec.origin "__file__"
            true)
          spec.parent "__package__" true)
        spec.submodule_search_locations "__path__" false

  abbrev pub module_or_null : Option Dict → Created
  module_or_null none = null
  module_or_null (some d) = new_module d

  -- A module that has no name is not made.
  unfoldable pub make_module : Spec → Dict → Created
  unfolding copy_all
  make_module spec fresh = elim spec.name [
    | found n ↦ if alloc_fails then null else module_or_null (copy_all spec fresh)
    | _ ↦ null
  ]

  unfoldable pub behind_check : Check → Option ℕ → Spec → Dict → Created
  unfolding make_module
  behind_check passed (some m) spec fresh = same_module m
  behind_check passed none spec fresh = make_module spec fresh
  behind_check no_id pyx_m spec fresh = null
  behind_check import_error pyx_m spec fresh = null

  -- With the new `main_interpreter_id`.
  unfoldable pub pymod_create : ℤ → ℤ → Option ℕ → Spec → Dict → Created × ℤ
  unfolding check_single_interpreter behind_check
  pymod_create current_id main_interpreter_id pyx_m spec fresh =
      let (check, id) = check_single_interpreter current_id main_interpreter_id in
      (behind_check check pyx_m spec fresh, id)

-- One check after the other, each by an interpreter.
unfoldable pub checks : List ℤ → ℤ → List (ℤ × Check)
unfolding check_single_interpreter
checks [] main_interpreter_id = []
checks (current_id ∷ ids) main_interpreter_id =
    let (check, id) = check_single_interpreter current_id main_interpreter_id in
    (current_id, check) ∷ checks ids id

-- The checks that are passed are those of `m`.
abbrev pub OnlyOf : ℤ → List (ℤ × Check) → Type 0
OnlyOf m [] = Unit {0}
OnlyOf m ((id, passed) ∷ cs) = (id ≡ m) × OnlyOf m cs
OnlyOf m ((id, import_error) ∷ cs) = OnlyOf m cs
OnlyOf m ((id, no_id) ∷ cs) = OnlyOf m cs

later_checks : (ids : List ℤ) (m : ℤ) → eq_ℤ m minus_one ≡ false → OnlyOf m (checks ids m)
unfolding checks check_single_interpreter
later_checks [] m h = tt
later_checks (id ∷ ids) m h = elim (Bool-cases (eq_ℤ m id)) [
  | inl e ↦ rw (h, e) (ground (arith, e), later_checks ids m h)
  | inr e ↦ rw (h, e) (later_checks ids m h)
]

-- In a process in which the module has not been loaded, whatever interpreters try in whatever order, all
-- checks that are passed are those of one interpreter.
pub single_interpreter : (ids : List ℤ) → (m : ℤ) × OnlyOf m (checks ids minus_one)
unfolding checks check_single_interpreter
single_interpreter [] = (minus_one, tt)
single_interpreter (id ∷ ids) = elim (Bool-cases (eq_ℤ id minus_one)) [
  | inl e ↦
      let k : id ≡ minus_one = ground (arith, e) in
      let (m, h) = single_interpreter ids in (m, rw (e, k) h)
  | inr e ↦ (id, rw e (refl, later_checks ids id e))
]
