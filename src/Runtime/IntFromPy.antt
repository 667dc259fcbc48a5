-- ===== src/Runtime/IntFromPy.antt =====
-- `__Pyx_PyInt_As_int` and `__Pyx_PyInt_As_long`: the C integer of a Python object, on a 64-bit Linux,
-- where an int has 4 bytes, a long 8, and a digit of a Python int 30 bits. Both
-- are signed, so the branches for unsigned targets are never taken.
use shmrpc.Prelude.{
  ℕ, String, ◌+◌, ◌-◌, ◌*◌, ◌%◌, ◌^◌, ltb, ℤ, pos, negsuc, eq_ℤ, sub_ℕ, Option, none, some, Bool,
  true, false, if◌then◌else◌, List, [], ◌∷◌,
}

-- A Python int: its sign, and its digits from the lowest.
pub record PyLong : Type 0 where
  pub negative : Bool
  pub digits : List ℕ

-- What the slot `nb_int` of another object gives: an int, an instance of a subclass of int, with
-- whether the warning about it raises, something else, or an exception.
pub data IntResult : Type 0 where
  exact : PyLong → IntResult
  subclass : Bool → PyLong → IntResult
  wrong_type : IntResult
  raised : IntResult

-- A bytes object or a bytearray is given by what stands before its first NUL.
pub data Object : Type 0 where
  python_int : PyLong → Object
  bytes : String → Object
  bytearray : String → Object
  with_slot : IntResult → Object
  without_slot : Object

-- The C value, or the Python exception with which the error value is returned; or a use of NULL.
pub data Conversion (A : Type 0) : Type 0 where
  value : A → Conversion A
  overflow_error : Conversion A
  type_error : Conversion A
  other_error : Conversion A
  null_pointer : Conversion A

abbrev pub bind : {A B : Type 0} → Conversion A → (A → Conversion B) → Conversion B
bind (value a) k = k a
bind overflow_error k = overflow_error
bind type_error k = type_error
bind other_error k = other_error
bind null_pointer k = null_pointer

abbrev pub sizeof_int : ℕ
sizeof_int = 4

abbrev pub sizeof_long : ℕ
sizeof_long = 8

abbrev pub sizeof_digit : ℕ
sizeof_digit = 4

-- `PyLong_SHIFT`
abbrev pub digit_bits : ℕ
digit_bits = 30

-- `(…(digits[1] << PyLong_SHIFT) | digits[0]`: a digit has no more bits than the shift makes room for,
-- so the disjunction is a sum.
abbrev pub magnitude : List ℕ → ℕ
magnitude [] = 0
magnitude (d ∷ ds) = d + 2 ^ digit_bits * magnitude ds

abbrev pub signed : Bool → ℕ → ℤ
signed negative n = if negative then sub_ℕ 0 n else pos n

-- The low `bits` bits of an integer, and their value in two's complement.
abbrev pub low_bits : ℕ → ℤ → ℕ
low_bits bits (pos n) = n % 2 ^ bits
low_bits bits (negsuc n) = 2 ^ bits - 1 - n % 2 ^ bits

abbrev pub two_s_complement : ℕ → ℕ → ℤ
two_s_complement bits b = if ltb b (2 ^ (bits - 1)) then pos b else negsuc (2 ^ bits - 1 - b)

-- The conversion to a signed integer of that many bytes.
unfoldable pub to_signed : ℕ → ℤ → ℤ
to_signed size v = two_s_complement (8 * size) (low_bits (8 * size) v)

-- The conversion to `func_type`, a signed or an unsigned integer of that many bytes.
abbrev pub to_func_type : Bool → ℕ → ℤ → ℤ
to_func_type is_unsigned size v =
    if is_unsigned then pos (low_bits (8 * size) v) else to_signed size v

-- `__PYX_VERIFY_RETURN_INT`, for a signed target.
unfoldable pub verify_return : ℕ → Bool → ℕ → ℤ → Conversion ℤ
verify_return target is_unsigned func v =
    if ltb target func
    then (if eq_ℤ v (to_func_type is_unsigned func (to_signed target v))
        then value (to_signed target v)
        else overflow_error)
    else value (to_signed target v)

-- The cases of `switch (Py_SIZE(x))` for two digits and more; `none` is `break`.
unfoldable pub some_digits : ℕ → ℕ → Bool → ℕ → Option (Conversion ℤ)
some_digits target count negative n =
    if ltb ((count - 1) * digit_bits) (if negative then 8 * target - 1 else 8 * target)
    then (if ltb (count * digit_bits) (8 * sizeof_long)
        then some (
            verify_return target (if negative then false else true) sizeof_long (signed negative n))
        else if ltb (count * digit_bits) (8 * target - 1)
        then some (value (to_signed target (signed negative n)))
        else none)
    else none

unfoldable pub few_digits : ℕ → PyLong → Option (Conversion ℤ)
few_digits target x = elim x.digits [
  | [] ↦ some (value (pos 0))
  | d ∷ [] ↦
      some (
        verify_return target (if x.negative then false else true) sizeof_digit
          (signed x.negative d))
  | d ∷ e ∷ [] ↦ some_digits target 2 x.negative (magnitude x.digits)
  | d ∷ e ∷ f ∷ [] ↦ some_digits target 3 x.negative (magnitude x.digits)
  | d ∷ e ∷ f ∷ g ∷ [] ↦ some_digits target 4 x.negative (magnitude x.digits)
  | _ ↦ none
]

-- `__Pyx_PyNumber_IntOrLong`
unfoldable pub int_or_long : Object → Conversion PyLong
int_or_long (python_int x) = value x
int_or_long (bytes s) = type_error
int_or_long (bytearray s) = type_error
int_or_long without_slot = type_error
int_or_long (with_slot (exact x)) = value x
int_or_long (with_slot (subclass warning_raises x)) =
    if warning_raises then other_error else value x
int_or_long (with_slot wrong_type) = type_error
int_or_long (with_slot raised) = other_error

-- Behind the `switch`: the value of `PyLong_AsLong`, or `none` where it returns -1 with an
-- OverflowError.
abbrev pub or_long : ℕ → Option (Conversion ℤ) → Option ℤ → Conversion ℤ
or_long target (some c) v = c
or_long target none none = overflow_error
or_long target none (some v) = verify_return target false sizeof_long v

-- `as_long` is `PyLong_AsLong`.
module _ (as_long : PyLong → Option ℤ) where
  unfoldable pub from_pylong : ℕ → PyLong → Conversion ℤ
  from_pylong target x = or_long target (few_digits target x) (as_long x)

  -- The function for a target of that many bytes.
  unfoldable pub int_from_py : ℕ → Object → Conversion ℤ
  int_from_py target (python_int x) = from_pylong target x
  int_from_py target o = bind (int_or_long o) (from_pylong target)

  -- `__Pyx_PyInt_As_int`
  unfoldable pub pyint_as_int : Object → Conversion ℤ
  pyint_as_int = int_from_py sizeof_int

  -- `__Pyx_PyInt_As_long`
  unfoldable pub pyint_as_long : Object → Conversion ℤ
  pyint_as_long = int_from_py sizeof_long
