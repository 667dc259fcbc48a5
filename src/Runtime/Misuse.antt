-- ===== src/Runtime/Misuse.antt =====
-- How `__Pyx_Raise` may end, and its checks of the traceback and of the cause.
use shmrpc.Prelude.{ℕ, Option, none, some, true, ◌≡◌, ◌≢◌, ◌⊎◌, refl, arith, false}
use shmrpc.Runtime.Raise.{
  exception_instance, exception_class, traceback, Attempt, got, type_error, failed, ◌>>=◌, answer,
  tuple, Arguments, no_arguments, one_argument, arguments_of, ApiCalls, check_traceback,
  fixed_cause,
}

-- A condition for values and one for TypeError.
abbrev pub Ending : {A : Type 0} → (A → Type 0) → Type 0 → Attempt A → Type 0
Ending Q W (got a) = Q a
Ending Q W (type_error m) = W
Ending Q W (failed e) = Unit

pub Ending-bind :
    {A B : Type 0} (Q : A → Type 0) (R : B → Type 0) (W : Type 0) (r : Attempt A)
    (k : A → Attempt B)
    → Ending Q W r
    → ((a : A) → Q a → Ending R W (k a))
    → Ending R W (r >>= k)
Ending-bind Q R W (got a) k h f = f a h
Ending-bind Q R W (type_error m) k h f = h
Ending-bind Q R W (failed e) k h f = tt

pub Ending-weaken :
    {A : Type 0} {V W : Type 0} (Q : A → Type 0) (r : Attempt A)
    → (V → W)
    → Ending Q V r
    → Ending Q W r
Ending-weaken Q (got a) f h = h
Ending-weaken Q (type_error m) f h = f h
Ending-weaken Q (failed e) f h = h

module _ (api : ApiCalls) where
  open api use {py_none, sort, type_of, is_subclass, call, traceback_of}

  -- The arguments of the call of a class, for the value that is given.
  abbrev pub arguments_for : Option ℕ → Arguments
  arguments_for none = no_arguments
  arguments_for (some value) = elim (sort value) [
    | tuple ↦ arguments_of value
    | _ ↦ one_argument value
  ]

  -- The value that is given is none of the class.
  abbrev pub IsForeign : ℕ → Option ℕ → Type 0
  IsForeign type none = Unit
  IsForeign type (some w) =
      (sort w ≢ exception_instance)
      ⊎ ((type_of w ≢ type) × (is_subclass (type_of w) type ≡ answer false))

  -- What is raised for an instance; and for a class, the given value where it is one of it or of a
  -- subclass, and otherwise what calling it has given. `value` is what is given, unless it is None.
  abbrev pub Asked : ℕ → Option ℕ → ℕ → ℕ → Type 0
  Asked type value k v =
      ((sort type ≡ exception_instance) × (value ≡ none) × (k ≡ type_of type) × (v ≡ type))
      ⊎ ((sort type ≡ exception_class)
          × ((value ≡ some v) × (k ≡ type_of v) × ((k ≡ type) ⊎ (is_subclass k type ≡ answer true))
              ⊎ (k ≡ type) × IsForeign type value × (call type (arguments_for value) ≡ answer v)))

  -- The uses that are refused.
  abbrev pub WrongTraceback : Option ℕ → Type 0
  WrongTraceback none = ⊥
  WrongTraceback (some tb) = (tb ≢ py_none) × (sort tb ≢ traceback)

  abbrev pub WrongCause : Option ℕ → Type 0
  WrongCause none = ⊥
  WrongCause (some cause) =
      (cause ≢ py_none) × (sort cause ≢ exception_class) × (sort cause ≢ exception_instance)

  abbrev pub WrongType : ℕ → Option ℕ → Type 0
  WrongType type value =
      ((sort type ≢ exception_instance) × (sort type ≢ exception_class))
      ⊎ ((sort type ≡ exception_instance) × (value ≢ none))
      ⊎ ((sort type ≡ exception_class)
          × IsForeign type value
          × ((v : ℕ) × (call type (arguments_for value) ≡ answer v)
              × (sort v ≢ exception_instance)))

  -- The traceback behind the raise of `v`, for the one that is given.
  abbrev pub TracebackIs : Option ℕ → ℕ → Option ℕ → Type 0
  TracebackIs none v t = t ≡ traceback_of v
  TracebackIs (some tb) v t =
      ((tb ≡ py_none) × (t ≡ traceback_of v))
      ⊎ ((tb ≢ py_none) × (sort tb ≡ traceback) × (t ≡ some tb))

  -- What the cause is set to, for the one that is given: nothing, None, what calling a class has given,
  -- or an instance.
  abbrev pub CauseIs : Option ℕ → Option (Option ℕ) → Type 0
  CauseIs none c = c ≡ none
  CauseIs (some cause) c =
      ((cause ≡ py_none) × (c ≡ some none))
      ⊎ ((cause ≢ py_none)
          × (sort cause ≡ exception_class)
          × ((v : ℕ) × (call cause no_arguments ≡ answer v) × (c ≡ some (some v))))
      ⊎ ((cause ≢ py_none) × (sort cause ≡ exception_instance) × (c ≡ some (some cause)))

  pub check_traceback_lem :
      (tb : Option ℕ)
      → Ending
          (λ t. (v : ℕ) → TracebackIs tb v (elim t [ none ↦ traceback_of v | some x ↦ some x ]))
          (WrongTraceback tb)
          (check_traceback api tb)
  unfolding check_traceback
  check_traceback_lem none = λ v. refl
  check_traceback_lem (some tb) = ground arith

  pub fixed_cause_lem :
      (cause : Option ℕ) → Ending (CauseIs cause) (WrongCause cause) (fixed_cause api cause)
  unfolding fixed_cause
  fixed_cause_lem none = refl
  fixed_cause_lem (some cause) = ground arith
