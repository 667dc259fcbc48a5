-- ===== src/Runtime/Metaclass.antt =====
-- `__Pyx_CalculateMetaclass`: the metaclass of a new class, from the one that is asked for, if any, and
-- those of its bases.
use shmrpc.Prelude.{
  ℕ, Option, none, some, Bool, true, false, List, [], ◌∷◌, ◌≡◌, ◌⊎◌, inl, inr, arith, refl,
  Bool-cases,
}
use shmrpc.Runtime.IntFromPy.{
  Conversion, value, overflow_error, type_error, other_error, null_pointer, bind,
}
use shmrpc.Runtime.ExceptionMatches.{mem}

-- `PyType_IsSubtype`, `Py_TYPE` and `PyType_Type` of the interpreter.
module _ (py_is_subtype : ℕ → ℕ → Bool) (py_type : ℕ → ℕ) (type_type : ℕ) where
  unfoldable pub metaclass_loop : Option ℕ → List ℕ → Conversion (Option ℕ)
  metaclass_loop metaclass [] = value metaclass
  metaclass_loop none (tmp ∷ bases) = metaclass_loop (some (py_type tmp)) bases
  metaclass_loop (some metaclass) (tmp ∷ bases) = elim (py_is_subtype metaclass (py_type tmp)) [
    | true ↦ metaclass_loop (some metaclass) bases
    | false ↦ elim (py_is_subtype (py_type tmp) metaclass) [
      | true ↦ metaclass_loop (some (py_type tmp)) bases
      | false ↦ type_error
    ]
  ]

  abbrev pub or_type : Option ℕ → ℕ
  or_type none = type_type
  or_type (some metaclass) = metaclass

  unfoldable pub calculate_metaclass : Option ℕ → List ℕ → Conversion ℕ
  unfolding metaclass_loop
  calculate_metaclass metaclass bases =
      bind (metaclass_loop metaclass bases) (λ m. value (or_type m))

  abbrev pub types : List ℕ → List ℕ
  types [] = []
  types (b ∷ bs) = py_type b ∷ types bs

  -- The metaclasses that the new one has to agree with.
  abbrev pub candidates : Option ℕ → List ℕ → List ℕ
  candidates none bases = types bases
  candidates (some m) bases = m ∷ types bases

  abbrev pub BelowAll : ℕ → List ℕ → Type 0
  BelowAll m [] = Unit {0}
  BelowAll m (t ∷ ts) = (py_is_subtype m t ≡ true) × BelowAll m ts

  -- One of them that is a subtype of all; none, where two of them are unrelated.
  abbrev pub IsLeast : List ℕ → Conversion ℕ → Type 0
  IsLeast ts (value m) = ((ts ≡ []) × (m ≡ type_type)) ⊎ ((mem m ts ≡ true) × BelowAll m ts)
  IsLeast ts type_error =
      (x : ℕ) × (y : ℕ) × (mem x ts ≡ true)
      × (mem y ts ≡ true)
      × (py_is_subtype x y ≡ false)
      × (py_is_subtype y x ≡ false)
  IsLeast ts _ = ⊥

  abbrev LoopLeast : List ℕ → Conversion (Option ℕ) → Type 0
  LoopLeast ts (value (some m)) = (mem m ts ≡ true) × BelowAll m ts
  LoopLeast ts (value none) = ⊥
  LoopLeast ts type_error = IsLeast ts type_error
  LoopLeast ts _ = ⊥

  -- The subtypes of a metaclass are ordered.
  module _ (reflexive : (a : ℕ) → py_is_subtype a a ≡ true)
      (transitive : (a b c : ℕ)
        → py_is_subtype a b ≡ true
        → py_is_subtype b c ≡ true
        → py_is_subtype a c ≡ true) where
    -- A candidate is added that the current metaclass stands above or below.
    add_above :
        (m t : ℕ) (ts : List ℕ) (c : Conversion (Option ℕ))
        → py_is_subtype m t ≡ true
        → LoopLeast (m ∷ ts) c
        → LoopLeast (m ∷ t ∷ ts) c
    add_above m t ts (value none) l h = h
    add_above m t ts (value (some r)) l h =
        (ground (arith, h), (h.1.0, (transitive r m t h.1.0 l, h.1.1)))
    add_above m t ts type_error l (x, y, a, b, u, v) =
        (x, y, ground (arith, a), ground (arith, b), u, v)
    add_above m t ts overflow_error l h = h
    add_above m t ts other_error l h = h
    add_above m t ts null_pointer l h = h

    add_below :
        (m t : ℕ) (ts : List ℕ) (c : Conversion (Option ℕ))
        → py_is_subtype t m ≡ true
        → LoopLeast (t ∷ ts) c
        → LoopLeast (m ∷ t ∷ ts) c
    add_below m t ts (value none) l h = h
    add_below m t ts (value (some r)) l h = (ground (arith, h), (transitive r t m h.1.0 l, h.1))
    add_below m t ts type_error l (x, y, a, b, u, v) =
        (x, y, ground (arith, a), ground (arith, b), u, v)
    add_below m t ts overflow_error l h = h
    add_below m t ts other_error l h = h
    add_below m t ts null_pointer l h = h

    loop-LoopLeast :
        (m : ℕ) (bases : List ℕ) → LoopLeast (m ∷ types bases) (metaclass_loop (some m) bases)
    unfolding metaclass_loop
    loop-LoopLeast m [] = (ground arith, (reflexive m, tt))
    loop-LoopLeast m (b ∷ bs) = elim (Bool-cases (py_is_subtype m (py_type b))) [
      | inl e ↦
          let g : metaclass_loop (some m) (b ∷ bs) ≡ metaclass_loop (some m) bs =
            rw (e, metaclass_loop) refl in
          rw g (add_above m (py_type b) (types bs) _ e (loop-LoopLeast m bs))
      | inr e ↦ elim (Bool-cases (py_is_subtype (py_type b) m)) [
        | inl f ↦
            let g : metaclass_loop (some m) (b ∷ bs) ≡ metaclass_loop (some (py_type b)) bs =
              rw (e, metaclass_loop) (rw f refl) in
            rw g (add_below m (py_type b) (types bs) _ f (loop-LoopLeast (py_type b) bs))
        | inr f ↦
            let g : metaclass_loop (some m) (b ∷ bs) ≡ type_error =
              rw (e, metaclass_loop) (rw f refl) in
            rw g (m, py_type b, ground arith, ground arith, e, f)
      ]
    ]

    LoopLeast-IsLeast :
        (ts : List ℕ) (c : Conversion (Option ℕ))
        → LoopLeast ts c
        → IsLeast ts (bind c (λ m. value (or_type m)))
    LoopLeast-IsLeast ts (value (some m)) h = inr h
    LoopLeast-IsLeast ts (value none) h = absurd h
    LoopLeast-IsLeast ts type_error h = h
    LoopLeast-IsLeast ts overflow_error h = h
    LoopLeast-IsLeast ts other_error h = h
    LoopLeast-IsLeast ts null_pointer h = h

    -- If `PyType_IsSubtype` is reflexive and transitive, the metaclass of a new class is one of the
    -- candidates, the metaclass asked for and those of the bases, and a subtype of them all; it is
    -- `type` if there is no candidate. TypeError is raised only if two candidates are unrelated.
    pub calculate_metaclass_lem :
        (metaclass : Option ℕ) (bases : List ℕ)
        → IsLeast (candidates metaclass bases) (calculate_metaclass metaclass bases)
    unfolding calculate_metaclass
    calculate_metaclass_lem (some m) bases = LoopLeast-IsLeast _ _ (loop-LoopLeast m bases)
    calculate_metaclass_lem none [] = inl (refl, refl)
    calculate_metaclass_lem none (b ∷ bs) = LoopLeast-IsLeast _ _ (loop-LoopLeast (py_type b) bs)
