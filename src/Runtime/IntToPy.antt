-- ===== src/Runtime/IntToPy.antt =====
-- `__Pyx_PyInt_From_int` and `__Pyx_PyInt_From_long`: the Python int of a C integer, where an int has 4 bytes
-- and a long 8.
use shmrpc.Prelude.{
  Option, some, none, ℕ, ltb, leb, ℤ, pos, negsuc, Bool, true, false, if◌then◌else◌, ◌≡◌, refl, ◌∙◌,
}
use shmrpc.Runtime.IntFromPy.{
  PyLong, python_int, value, sizeof_int, sizeof_long, pyint_as_int, pyint_as_long,
}
use shmrpc.Runtime.IntBounds.{fits, value_of, IsDigits, pyint_as_int_lem}

-- The functions of the interpreter that make a Python int: of a long, of an unsigned long, of the types
-- `long long`, and of the bytes of an integer.
pub record LongCalls : Type 0 where
  pub from_long : ℤ → PyLong
  pub from_unsigned_long : ℤ → PyLong
  pub from_long_long : ℤ → PyLong
  pub from_unsigned_long_long : ℤ → PyLong
  pub from_byte_array : ℕ → Bool → ℤ → PyLong

abbrev pub sizeof_long_long : ℕ
sizeof_long_long = 8

-- `neg_one > const_zero`, with -1 as it is in the type.
abbrev pub is_above_zero : ℤ → Bool
is_above_zero (pos n) = ltb 0 n
is_above_zero (negsuc n) = false

module _ (calls : LongCalls) where
  -- `neg_one` is -1 in the C type, which is `size` bytes long.
  abbrev pub pyint_from : ℕ → ℤ → ℤ → PyLong
  pyint_from size neg_one v =
      if is_above_zero neg_one
      then if ltb size sizeof_long
        then calls.from_long v
        else if leb size sizeof_long
        then calls.from_unsigned_long v
        else if leb size sizeof_long_long
        then calls.from_unsigned_long_long v
        else calls.from_byte_array size false v
      else if leb size sizeof_long
      then calls.from_long v
      else if leb size sizeof_long_long
      then calls.from_long_long v
      else calls.from_byte_array size true v

  unfoldable pub pyint_from_int : ℤ → PyLong
  pyint_from_int = pyint_from sizeof_int (negsuc 0)

  unfoldable pub pyint_from_long : ℤ → PyLong
  pyint_from_long = pyint_from sizeof_long (negsuc 0)

  -- If `PyLong_FromLong` makes the Python int of a long, and `PyLong_AsLong` gives its value back, then an
  -- int and a long that go to Python and come back are the same.
  pub pyint_as_int-pyint_from_int :
      (as_long : PyLong → Option ℤ)
      → ((x : PyLong) → as_long x ≡ (if fits 64 (value_of x) then some (value_of x) else none))
      → ((v : ℤ) → value_of (calls.from_long v) ≡ v)
      → ((v : ℤ) → IsDigits (calls.from_long v).digits)
      → (v : ℤ) → (fits 32 v ≡ true)
      → (fits 64 v ≡ true)
      → (pyint_as_int as_long (python_int (pyint_from_int v)) ≡ value v)
        × (pyint_as_long as_long (python_int (pyint_from_long v)) ≡ value v)
  unfolding pyint_from_int pyint_from_long
  pyint_as_int-pyint_from_int as_long as_long_lem exact digits v h k =
      let back = pyint_as_int_lem as_long as_long_lem (calls.from_long v) (digits v) in
      (back.0 ∙ rw (exact v, h) refl, back.1 ∙ rw (exact v, k) refl)
