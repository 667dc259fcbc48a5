-- ===== src/Runtime/Raise.antt =====
-- `__Pyx_Raise`, as it is compiled for CPython 3. Objects are numbers, compared like pointers.
use shmrpc.Prelude.{ℕ, String, ◌==◌, Option, none, some, Bool, if◌then◌else◌}

-- The checks of the types of an object; no object passes two of them.
pub data Sort : Type 0 where
  exception_instance : Sort
  exception_class : Sort
  tuple : Sort
  traceback : Sort
  other : Sort

-- A value; the TypeError that `__Pyx_Raise` sets, with its message; or the exception, a number, that a
-- call of the interpreter has set.
pub data Attempt (A : Type 0) : Type 0 where
  got : A → Attempt A
  type_error : String → Attempt A
  failed : ℕ → Attempt A

infixl 5 ◌>>=◌
abbrev pub ◌>>=◌ : {A B : Type 0} → Attempt A → (A → Attempt B) → Attempt B
got a >>= k = k a
type_error m >>= k = type_error m
failed e >>= k = failed e

-- What a call of the interpreter gives.
pub data Answer (A : Type 0) : Type 0 where
  answer : A → Answer A
  error : ℕ → Answer A

abbrev pub ask : {A : Type 0} → Answer A → Attempt A
ask (answer a) = got a
ask (error e) = failed e

-- `PyTuple_New(0)`, `PyTuple_Pack(1, value)`, or the tuple that was given.
pub data Arguments : Type 0 where
  no_arguments : Arguments
  one_argument : ℕ → Arguments
  arguments_of : ℕ → Arguments

-- What the calls of the interpreter give; `no_tuple` is their failure to make one.
pub record ApiCalls : Type 0 where
  pub py_none : ℕ
  pub sort : ℕ → Sort
  pub type_of : ℕ → ℕ
  pub is_subclass : ℕ → ℕ → Answer Bool
  pub call : ℕ → Arguments → Answer ℕ
  pub no_tuple : Option ℕ
  pub traceback_of : ℕ → Option ℕ

-- What is pending, and what the cause of the value is set to, if it is set.
pub record Raised : Type 0 where
  pub type : ℕ
  pub value : ℕ
  pub traceback : Option ℕ
  pub cause : Option (Option ℕ)

module _ (api : ApiCalls) where
  open api use {py_none, sort, type_of, is_subclass, call, no_tuple, traceback_of}

  unfoldable pub check_traceback : Option ℕ → Attempt (Option ℕ)
  check_traceback none = got none
  check_traceback (some tb) = if tb == py_none then got none else elim (sort tb) [
    | traceback ↦ got (some tb)
    | _ ↦ type_error "raise: arg 3 must be a traceback or None"
  ]

  abbrev pub not_none : Option ℕ → Option ℕ
  not_none none = none
  not_none (some value) = if value == py_none then none else some value

  abbrev pub pack : Arguments → Attempt Arguments
  pack args = elim no_tuple [ none ↦ got args | some e ↦ failed e ]

  abbrev pub arguments : Option ℕ → Attempt Arguments
  arguments none = pack no_arguments
  arguments (some value) = elim (sort value) [
    | tuple ↦ got (arguments_of value)
    | _ ↦ pack (one_argument value)
  ]

  unfoldable pub call_class : ℕ → Option ℕ → Attempt (ℕ × ℕ)
  call_class type value = do
    args ← arguments value
    v ← ask (call type args)
    elim (sort v) [
      | exception_instance ↦ got (type, v)
      | _ ↦ type_error "calling %R should have returned an instance of BaseException, not %R"
    ]

  -- `instance_class`, with the value.
  abbrev pub instance_class : ℕ → Option ℕ → Attempt (Option (ℕ × ℕ))
  instance_class type none = got none
  instance_class type (some value) = elim (sort value) [
    | exception_instance ↦ if type_of value == type then got (some (type_of value, value)) else (do
      b ← ask (is_subclass (type_of value) type)
      got (if b then some (type_of value, value) else none))
    | _ ↦ got none
  ]

  unfoldable pub from_class : ℕ → Option ℕ → Attempt (ℕ × ℕ)
  unfolding call_class
  from_class type value = do
    c ← instance_class type value
    elim c [ some p ↦ got p | none ↦ call_class type value ]

  unfoldable pub type_and_value : ℕ → Option ℕ → Attempt (ℕ × ℕ)
  unfolding from_class
  type_and_value type value = elim (sort type) [
    | exception_instance ↦ elim value [
      | some _ ↦ type_error "instance exception may not have a separate value"
      | none ↦ got (type_of type, type)
    ]
    | exception_class ↦ from_class type value
    | _ ↦ type_error "raise: exception class must be a subclass of BaseException"
  ]

  unfoldable pub fixed_cause : Option ℕ → Attempt (Option (Option ℕ))
  fixed_cause none = got none
  fixed_cause (some cause) = if cause == py_none then got (some none) else elim (sort cause) [
    | exception_class ↦ (do c ← ask (call cause no_arguments); got (some (some c)))
    | exception_instance ↦ got (some (some cause))
    | _ ↦ type_error "exception causes must derive from BaseException"
  ]

  -- `PyErr_SetObject` takes the traceback of the value, and `tb` then takes its place.
  unfoldable pub raise : ℕ → Option ℕ → Option ℕ → Option ℕ → Attempt Raised
  unfolding check_traceback type_and_value fixed_cause
  raise type value tb cause = do
    t ← check_traceback tb
    p ← type_and_value type (not_none value)
    c ← fixed_cause cause
    got (record {
      type = p.0;
      value = p.1;
      traceback = elim t [ none ↦ traceback_of p.1 | some x ↦ some x ];
      cause = c;
    })
