-- ===== src/Runtime/Binding/Defined.antt =====
-- The wrappers never use a value that is NULL.
use shmrpc.Prelude.{
  ℕ, ◌&&◌, ◌-◌, ◌*◌, ltb, ℤ, pos, Option, none, some, Bool, true, false, if◌then◌else◌, List, [],
  ◌∷◌, ◌≡◌, arith, refl,
}
use shmrpc.Runtime.IntFromPy.{
  PyLong, Object, python_int, bytes, bytearray, with_slot, without_slot, exact, subclass,
  wrong_type, raised, Conversion, value, overflow_error, type_error, other_error, null_pointer,
  bind, few_digits, some_digits, verify_return, or_long, from_pylong, int_or_long, int_from_py,
  pyint_as_int, sizeof_int, sizeof_long, sizeof_digit, digit_bits, signed, to_signed,
}
use shmrpc.Runtime.Arguments.{Item, get_item, first_kw_arg, int_argument, as_writable_string}
use shmrpc.Runtime.Wrappers.{cinit_names, cinit_arguments}
use shmrpc.Runtime.Binding.{is_some, known, have, bound, IsDict}
use shmrpc.Runtime.Binding.Calls.{cinit_call, cinit_arguments-bound}

abbrev pub IsDefined : {A : Type 0} → Conversion A → Type 0
IsDefined null_pointer = ⊥
IsDefined _ = Unit {0}

bind-IsDefined :
    {A B : Type 0} (c : Conversion A) (k : A → Conversion B)
    → IsDefined c
    → ((a : A) → IsDefined (k a))
    → IsDefined (bind c k)
bind-IsDefined (value a) k h g = g a
bind-IsDefined overflow_error k h g = tt
bind-IsDefined type_error k h g = tt
bind-IsDefined other_error k h g = tt
bind-IsDefined null_pointer k h g = h

verify_return-IsDefined :
    (target : ℕ) (u : Bool) (func : ℕ) (v : ℤ) → IsDefined (verify_return target u func v)
unfolding verify_return
verify_return-IsDefined target u func v = ground arith

abbrev OptionDefined : Option (Conversion ℤ) → Type 0
OptionDefined none = Unit {0}
OptionDefined (some c) = IsDefined c

branches-Defined :
    (a b c : Bool) (target : ℕ) (u : Bool) (func : ℕ) (v w : ℤ)
    → OptionDefined (
        if a
        then (if b
            then some (verify_return target u func v)
            else if c
            then some (value w)
            else none)
        else none)
branches-Defined false b c target u func v w = tt
branches-Defined true true c target u func v w = verify_return-IsDefined target u func v
branches-Defined true false true target u func v w = tt
branches-Defined true false false target u func v w = tt

some_digits-Defined :
    (target count : ℕ) (negative : Bool) (n : ℕ)
    → OptionDefined (some_digits target count negative n)
unfolding some_digits
some_digits-Defined target count negative n =
    branches-Defined
      (ltb ((count - 1) * digit_bits) (if negative then 8 * target - 1 else 8 * target))
      (ltb (count * digit_bits) (8 * sizeof_long)) (ltb (count * digit_bits) (8 * target - 1))
      target (if negative then false else true) sizeof_long (signed negative n)
      (to_signed target (signed negative n))

few_digits-Defined :
    (target : ℕ) (negative : Bool) (ds : List ℕ)
    → OptionDefined (few_digits target (record { negative = negative; digits = ds }))
unfolding few_digits
few_digits-Defined target negative [] = tt
few_digits-Defined target negative (d ∷ []) = verify_return-IsDefined target _ sizeof_digit _
few_digits-Defined target negative (d ∷ e ∷ []) = some_digits-Defined target 2 negative _
few_digits-Defined target negative (d ∷ e ∷ f ∷ []) = some_digits-Defined target 3 negative _
few_digits-Defined target negative (d ∷ e ∷ f ∷ g ∷ []) = some_digits-Defined target 4 negative _
few_digits-Defined target negative (d ∷ e ∷ f ∷ g ∷ h ∷ ds) = tt

or_long-IsDefined :
    (target : ℕ) (o : Option (Conversion ℤ)) (v : Option ℤ)
    → OptionDefined o
    → IsDefined (or_long target o v)
or_long-IsDefined target (some c) v h = h
or_long-IsDefined target none none h = tt
or_long-IsDefined target none (some v) h = verify_return-IsDefined target false sizeof_long v

int_or_long-IsDefined : (o : Object) → IsDefined (int_or_long o)
unfolding int_or_long
int_or_long-IsDefined (python_int x) = tt
int_or_long-IsDefined (bytes s) = tt
int_or_long-IsDefined (bytearray s) = tt
int_or_long-IsDefined without_slot = tt
int_or_long-IsDefined (with_slot (exact x)) = tt
int_or_long-IsDefined (with_slot (subclass true x)) = tt
int_or_long-IsDefined (with_slot (subclass false x)) = tt
int_or_long-IsDefined (with_slot wrong_type) = tt
int_or_long-IsDefined (with_slot raised) = tt

as_writable_string-IsDefined : (o : Object) → IsDefined (as_writable_string o)
as_writable_string-IsDefined (python_int x) = tt
as_writable_string-IsDefined (bytes s) = tt
as_writable_string-IsDefined (bytearray s) = tt
as_writable_string-IsDefined (with_slot r) = tt
as_writable_string-IsDefined without_slot = tt

module _ (as_long : PyLong → Option ℤ) where
  from_pylong-IsDefined : (target : ℕ) (x : PyLong) → IsDefined (from_pylong as_long target x)
  unfolding from_pylong
  from_pylong-IsDefined target x =
      or_long-IsDefined target (few_digits target x) (as_long x)
        (few_digits-Defined target x.negative x.digits)

  pyint_as_int-IsDefined : (o : Object) → IsDefined (pyint_as_int as_long o)
  unfolding pyint_as_int int_from_py
  pyint_as_int-IsDefined (python_int x) = from_pylong-IsDefined sizeof_int x
  pyint_as_int-IsDefined (bytes s) =
      bind-IsDefined _ _ (int_or_long-IsDefined (bytes s)) (from_pylong-IsDefined sizeof_int)
  pyint_as_int-IsDefined (bytearray s) =
      bind-IsDefined _ _ (int_or_long-IsDefined (bytearray s)) (from_pylong-IsDefined sizeof_int)
  pyint_as_int-IsDefined without_slot =
      bind-IsDefined _ _ (int_or_long-IsDefined without_slot) (from_pylong-IsDefined sizeof_int)
  pyint_as_int-IsDefined (with_slot r) =
      bind-IsDefined _ _ (int_or_long-IsDefined (with_slot r)) (from_pylong-IsDefined sizeof_int)

  int_argument-IsDefined : (o : Option Object) (v : ℤ) → IsDefined (int_argument as_long o v)
  int_argument-IsDefined none v = tt
  int_argument-IsDefined (some o) v = pyint_as_int-IsDefined o

  cinit_call-IsDefined :
      (x y z w : Option Object)
      → is_some x ≡ true
      → is_some y ≡ true
      → IsDefined (cinit_call as_long (x ∷ y ∷ z ∷ w ∷ []))
  cinit_call-IsDefined none y z w e f = absurd (ground (arith, e))
  cinit_call-IsDefined (some a) none z w e f = absurd (ground (arith, f))
  cinit_call-IsDefined (some a) (some b) z w e f =
      bind-IsDefined _ _ (as_writable_string-IsDefined a) (λ n.
        bind-IsDefined _ _ (pyint_as_int-IsDefined b) (λ m.
          bind-IsDefined _ _ (int_argument-IsDefined z (pos 1))
            (λ i. bind-IsDefined _ _ (int_argument-IsDefined w (pos 438)) (λ p. tt))))

  accepted :
      (b : Bool) (x y z w : Option Object)
      → (b ≡ true → is_some x ≡ true)
      → (b ≡ true → is_some y ≡ true)
      → IsDefined (bind (if b then value (x ∷ y ∷ z ∷ w ∷ []) else type_error) (cinit_call as_long))
  accepted true x y z w h k = cinit_call-IsDefined x y z w (h refl) (k refl)
  accepted false x y z w h k = tt

  bound-IsDefined :
      (args : List Object) (d : List Item)
      → IsDefined (bind (bound cinit_names 2 args d) (cinit_call as_long))
  bound-IsDefined [] d =
      accepted (known cinit_names d && have 2 cinit_names d) (get_item "sem_loc" d)
        (get_item "mode" d) (get_item "initial_value" d) (get_item "permissions" d)
        (λ e. ground (arith, e)) (λ e. ground (arith, e))
  bound-IsDefined (a ∷ []) d =
      accepted (known (first_kw_arg cinit_names 1) d && have 1 (first_kw_arg cinit_names 1) d)
        (some a) (get_item "mode" d) (get_item "initial_value" d) (get_item "permissions" d)
        (λ e. refl) (λ e. ground (arith, e))
  bound-IsDefined (a ∷ b ∷ []) d =
      accepted (known (first_kw_arg cinit_names 2) d && true) (some a) (some b)
        (get_item "initial_value" d) (get_item "permissions" d) (λ e. refl) (λ e. refl)
  bound-IsDefined (a ∷ b ∷ c ∷ []) d =
      accepted (known (first_kw_arg cinit_names 3) d && true) (some a) (some b) (some c)
        (get_item "permissions" d) (λ e. refl) (λ e. refl)
  bound-IsDefined (a ∷ b ∷ c ∷ e ∷ []) d =
      accepted (known [] d && true) (some a) (some b) (some c) (some e) (λ h. refl) (λ h. refl)
  bound-IsDefined (a ∷ b ∷ c ∷ e ∷ f ∷ args) d = ground arith

  -- The wrapper of `__cinit__` never uses a value that is NULL, with a dictionary of keywords and
  -- without one.
  pub cinit_arguments-IsDefined :
      (args : List Object) (d : List Item)
      → IsDict d
      → IsDefined (cinit_arguments as_long args (some d))
        × IsDefined (cinit_arguments as_long args none)
  cinit_arguments-IsDefined args d u =
      let (a, b) = cinit_arguments-bound as_long args d u in
      (rw a (bound-IsDefined args d), rw b (bound-IsDefined args []))
