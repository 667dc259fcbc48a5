-- ===== src/Runtime/IntBounds.antt =====
-- The conversion of a Python int to a C integer is exact, and refuses what does not fit.
use shmrpc.Prelude.{
  ℕ, ◌-◌, ◌^◌, ◌<◌, ltb, ℤ, pos, negsuc, Option, none, some, Bool, true, false, if◌then◌else◌, List,
  [], ◌∷◌, ◌≡◌, arith, refl, Bool-cases, inl, inr,
}
use shmrpc.Runtime.IntFromPy.{
  PyLong, python_int, Conversion, value, overflow_error, magnitude, signed, to_signed,
  verify_return, some_digits, few_digits, from_pylong, int_from_py, pyint_as_int, pyint_as_long,
  sizeof_int, sizeof_long, sizeof_digit,
}

-- The integer is one of that many bits, in two's complement.
abbrev pub fits : ℕ → ℤ → Bool
fits bits (pos n) = ltb n (2 ^ (bits - 1))
fits bits (negsuc n) = ltb n (2 ^ (bits - 1))

abbrev pub value_of : PyLong → ℤ
value_of x = signed x.negative (magnitude x.digits)

abbrev pub IsDigits : List ℕ → Type 0
IsDigits [] = Unit {0}
IsDigits (d ∷ ds) = (d < 2 ^ 30) × IsDigits ds

-- The value, if it fits.
abbrev pub checked_value : ℕ → ℤ → Conversion ℤ
checked_value bits v = if fits bits v then value v else overflow_error

to_signed-long : (v : ℤ) → fits 64 v ≡ true → to_signed sizeof_long v ≡ v
unfolding to_signed
to_signed-long (pos n) h = ground (arith, h)
to_signed-long (negsuc n) h = ground (arith, h)

verify-int_signed :
    (v : ℤ) → fits 64 v ≡ true → verify_return sizeof_int false sizeof_long v ≡ checked_value 32 v
unfolding verify_return to_signed
verify-int_signed (pos n) h = ground (arith, h)
verify-int_signed (negsuc n) h = ground (arith, h)

verify-int_unsigned :
    (n : ℕ)
    → n < 2 ^ 60
    → verify_return sizeof_int true sizeof_long (pos n) ≡ checked_value 32 (pos n)
unfolding verify_return to_signed
verify-int_unsigned n h = ground (arith, h)

verify-long :
    (is_unsigned : Bool) (v : ℤ)
    → fits 64 v ≡ true
    → verify_return sizeof_long is_unsigned sizeof_long v ≡ value v
unfolding verify_return
verify-long is_unsigned v h = rw (to_signed-long v h) refl

one_digit-int :
    (negative is_unsigned : Bool) (d : ℕ)
    → d < 2 ^ 30
    → verify_return sizeof_int is_unsigned sizeof_digit (signed negative d)
      ≡ checked_value 32 (signed negative (magnitude (d ∷ [])))
unfolding verify_return to_signed
one_digit-int true is_unsigned d w = ground (arith, w)
one_digit-int false is_unsigned d w = ground (arith, w)

one_digit-long :
    (negative is_unsigned : Bool) (d : ℕ)
    → d < 2 ^ 30
    → verify_return sizeof_long is_unsigned sizeof_digit (signed negative d)
      ≡ checked_value 64 (signed negative (magnitude (d ∷ [])))
unfolding verify_return to_signed
one_digit-long true is_unsigned d w = ground (arith, w)
one_digit-long false is_unsigned d w = ground (arith, w)

three_digits :
    (negative : Bool) (d e f : ℕ) (ds : List ℕ)
    → let x : PyLong = record { negative = negative; digits = d ∷ e ∷ f ∷ ds } in
      (few_digits sizeof_int x ≡ none) × (few_digits sizeof_long x ≡ none)
unfolding few_digits some_digits
three_digits true d e f [] = (refl, refl)
three_digits false d e f [] = (refl, refl)
three_digits true d e f (g ∷ []) = (refl, refl)
three_digits false d e f (g ∷ []) = (refl, refl)
three_digits negative d e f (g ∷ h ∷ ds) = (refl, refl)

module _ (as_long : PyLong → Option ℤ)
    (as_long_lem : (x : PyLong)
      → as_long x ≡ (if fits 64 (value_of x) then some (value_of x) else none)) where
  fits-less : (v : ℤ) → fits 64 v ≡ false → fits 32 v ≡ false
  fits-less (pos n) h = ground (arith, h)
  fits-less (negsuc n) h = ground (arith, h)

  -- The cases that go through `PyLong_AsLong`.
  by_long-int :
      (x : PyLong)
      → few_digits sizeof_int x ≡ none
      → from_pylong as_long sizeof_int x ≡ checked_value 32 (value_of x)
  unfolding from_pylong
  by_long-int x e = elim (Bool-cases (fits 64 (value_of x))) [
    | inl a ↦ rw (e, as_long_lem x, a) (verify-int_signed (value_of x) a)
    | inr a ↦ rw (e, as_long_lem x, a, fits-less (value_of x) a) refl
  ]

  by_long-long :
      (x : PyLong)
      → few_digits sizeof_long x ≡ none
      → from_pylong as_long sizeof_long x ≡ checked_value 64 (value_of x)
  unfolding from_pylong
  by_long-long x e = elim (Bool-cases (fits 64 (value_of x))) [
    | inl a ↦ rw (e, as_long_lem x, a) (verify-long false (value_of x) a)
    | inr a ↦ rw (e, as_long_lem x, a) refl
  ]

  digits-int :
      (negative : Bool) (digits : List ℕ)
      → IsDigits digits
      → let x : PyLong = record { negative = negative; digits = digits } in
        from_pylong as_long sizeof_int x ≡ checked_value 32 (value_of x)
  unfolding from_pylong few_digits some_digits
  digits-int true [] w = refl
  digits-int false [] w = refl
  digits-int true (d ∷ []) w = one_digit-int true false d w.0
  digits-int false (d ∷ []) w = one_digit-int false true d w.0
  digits-int true (d ∷ e ∷ []) w =
      verify-int_signed (signed true (magnitude (d ∷ e ∷ []))) (ground (arith, w))
  digits-int false (d ∷ e ∷ []) w = verify-int_unsigned (magnitude (d ∷ e ∷ [])) (omega (arith, w))
  digits-int negative (d ∷ e ∷ f ∷ ds) w =
      by_long-int (record { negative = negative; digits = d ∷ e ∷ f ∷ ds })
        (three_digits negative d e f ds).0

  digits-long :
      (negative : Bool) (digits : List ℕ)
      → IsDigits digits
      → let x : PyLong = record { negative = negative; digits = digits } in
        from_pylong as_long sizeof_long x ≡ checked_value 64 (value_of x)
  unfolding from_pylong few_digits some_digits
  digits-long true [] w = refl
  digits-long false [] w = refl
  digits-long true (d ∷ []) w = one_digit-long true false d w.0
  digits-long false (d ∷ []) w = one_digit-long false true d w.0
  digits-long true (d ∷ e ∷ []) w =
      let h : fits 64 (signed true (magnitude (d ∷ e ∷ []))) ≡ true = ground (arith, w) in
      rw h (verify-long false (signed true (magnitude (d ∷ e ∷ []))) h)
  digits-long false (d ∷ e ∷ []) w =
      let h : fits 64 (signed false (magnitude (d ∷ e ∷ []))) ≡ true = ground (arith, w) in
      rw h (verify-long true (signed false (magnitude (d ∷ e ∷ []))) h)
  digits-long negative (d ∷ e ∷ f ∷ ds) w =
      by_long-long (record { negative = negative; digits = d ∷ e ∷ f ∷ ds })
        (three_digits negative d e f ds).1

  -- If `PyLong_AsLong` gives the values of 64 bits and refuses others, then `__Pyx_PyInt_As_int` and
  -- `__Pyx_PyInt_As_long` of a Python int give its value if it is one of 32 or of 64 bits, and
  -- OverflowError if it is not.
  pub pyint_as_int_lem :
      (x : PyLong)
      → IsDigits x.digits
      → (pyint_as_int as_long (python_int x) ≡ checked_value 32 (value_of x))
        × (pyint_as_long as_long (python_int x) ≡ checked_value 64 (value_of x))
  unfolding pyint_as_int pyint_as_long int_from_py
  pyint_as_int_lem x w = (digits-int x.negative x.digits w, digits-long x.negative x.digits w)
