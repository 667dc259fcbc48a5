-- ===== src/Registry/Lists.antt =====
-- Lists and sets as Python has them, for any test of equality.
use shmrpc.Prelude.{
  ℕ, zero, suc, ◌≤◌, ◌≡◌, Bool, true, false, not, ◌&&◌, ◌||◌, List, [], ◌∷◌, ◌++◌, refl, arith,
  if◌then◌else◌, Bool-cases, inl, inr, ◌∙◌,
}

abbrev pub length {ℓ} : {A : Type ℓ} → List A → ℕ
length [] = 0
length (x ∷ xs) = suc (length xs)

-- `[x for x in xs if p(x)]`
abbrev pub keep {ℓ} : {A : Type ℓ} → (A → Bool) → List A → List A
keep p [] = []
keep p (x ∷ xs) = if p x then x ∷ keep p xs else keep p xs

module _ {ℓ} {A : Type ℓ} (same : A → A → Bool) where
  -- `x in xs`
  abbrev pub member : A → List A → Bool
  member x [] = false
  member x (y ∷ ys) = same x y || member x ys

  -- `xs.remove(x)`, where it is there.
  abbrev pub remove : A → List A → List A
  remove x [] = []
  remove x (y ∷ ys) = if same x y then ys else y ∷ remove x ys

  -- `while x in xs: xs.remove(x)`, on fuel.
  unfoldable pub remove_loop : ℕ → A → List A → List A
  remove_loop zero x xs = xs
  remove_loop (suc fuel) x xs = elim (member x xs) [
    | true ↦ remove_loop fuel x (remove x xs)
    | false ↦ xs
  ]

  abbrev pub remove_each : A → List A → List A
  remove_each x xs = remove_loop (length xs) x xs

  -- `if not x in xs: xs.append(x)`
  abbrev pub append_new : A → List A → List A
  append_new x xs = if member x xs then xs else xs ++ (x ∷ [])

  -- A set is a list in which nothing stands twice.
  abbrev pub set_add : A → List A → List A
  set_add x s = if member x s then s else x ∷ s

  abbrev pub to_set : List A → List A
  to_set [] = []
  to_set (x ∷ xs) = set_add x (to_set xs)

  abbrev pub difference : List A → List A → List A
  difference s t = keep (λ x. not (member x t)) s

  abbrev pub Distinct : List A → Type 0
  Distinct [] = Unit
  Distinct (x ∷ xs) = (member x xs ≡ false) × Distinct xs

  module _ (own : (a : A) → same a a ≡ true) (only : (a b : A) → same a b ≡ true → a ≡ b) where
    pub member-keep :
        (p : A → Bool) (x : A) (xs : List A) → member x (keep p xs) ≡ (p x && member x xs)
    member-keep p x [] = ground arith
    member-keep p x (y ∷ ys) = ground (arith, member-keep p x ys, only x y)

    pub member-append :
        (x : A) (xs ys : List A) → member x (xs ++ ys) ≡ (member x xs || member x ys)
    member-append x [] ys = refl
    member-append x (y ∷ xs) ys = ground (arith, member-append x xs ys)

    pub member-append_new :
        (x y : A) (xs : List A) → member x (append_new y xs) ≡ (same x y || member x xs)
    member-append_new x y xs = ground (arith, only x y, member-append x xs (y ∷ []))

    pub member-set_add :
        (x y : A) (xs : List A) → member x (set_add y xs) ≡ (same x y || member x xs)
    member-set_add x y xs = ground (arith, only x y)

    pub member-to_set : (x : A) (xs : List A) → member x (to_set xs) ≡ member x xs
    member-to_set x [] = refl
    member-to_set x (y ∷ xs) = ground (arith, member-set_add x y (to_set xs), member-to_set x xs)

    pub keep-Distinct : (p : A → Bool) (xs : List A) → Distinct xs → Distinct (keep p xs)
    keep-Distinct p [] d = tt
    keep-Distinct p (x ∷ xs) d = ground (arith, member-keep p x xs, keep-Distinct p xs d.1)

    pub set_add-Distinct : (x : A) (xs : List A) → Distinct xs → Distinct (set_add x xs)
    set_add-Distinct x xs d = ground (arith, d)

    pub to_set-Distinct : (xs : List A) → Distinct (to_set xs)
    to_set-Distinct [] = tt
    to_set-Distinct (x ∷ xs) = set_add-Distinct x (to_set xs) (to_set-Distinct xs)

    pub append-Distinct :
        (x : A) (xs : List A) → member x xs ≡ false → Distinct xs → Distinct (xs ++ (x ∷ []))
    append-Distinct x [] e d = (refl, tt)
    append-Distinct x (y ∷ xs) e d =
        ground (arith, e, own x, only y x, member-append y xs (x ∷ []), append-Distinct x xs)

    pub append_new-Distinct : (x : A) (xs : List A) → Distinct xs → Distinct (append_new x xs)
    append_new-Distinct x xs d = ground (arith, append-Distinct x xs)

    length-remove :
        (x : A) (xs : List A) → member x xs ≡ true → length xs ≡ suc (length (remove x xs))
    length-remove x [] e = ground (arith, e)
    length-remove x (y ∷ xs) e = ground (arith, e, length-remove x xs)

    keep-remove :
        (x : A) (xs : List A)
        → keep (λ y. not (same x y)) (remove x xs) ≡ keep (λ y. not (same x y)) xs
    keep-remove x [] = refl
    keep-remove x (y ∷ xs) = ground (arith, keep-remove x xs)

    keep-absent : (x : A) (xs : List A) → member x xs ≡ false → keep (λ y. not (same x y)) xs ≡ xs
    keep-absent x [] e = refl
    keep-absent x (y ∷ xs) e = ground (arith, e, keep-absent x xs)

    again :
        (fuel : ℕ) (x : A) (xs : List A)
        → member x xs ≡ true
        → remove_loop (suc fuel) x xs ≡ remove_loop fuel x (remove x xs)
    unfolding remove_loop
    again fuel x xs e = rw (e, remove_loop) refl

    stop : (fuel : ℕ) (x : A) (xs : List A) → member x xs ≡ false → remove_loop (suc fuel) x xs ≡ xs
    unfolding remove_loop
    stop fuel x xs e = rw (e, remove_loop) refl

    remove_loop-keep :
        (fuel : ℕ) (x : A) (xs : List A)
        → length xs ≤ fuel
        → remove_loop fuel x xs ≡ keep (λ y. not (same x y)) xs
    unfolding remove_loop
    remove_loop-keep zero x [] h = refl
    remove_loop-keep zero x (y ∷ xs) h = absurd (omega (arith, h))
    remove_loop-keep (suc fuel) x xs h = elim (Bool-cases (member x xs)) [
      | inl e ↦
          again fuel x xs e
          ∙ remove_loop-keep fuel x (remove x xs) (omega (arith, h, length-remove x xs e))
          ∙ keep-remove x xs
      | inr e ↦ rw (stop fuel x xs e, keep-absent x xs e) refl
    ]

    -- The loop removes all occurrences, and keeps the order of the rest.
    pub remove_each-keep : (x : A) (xs : List A) → remove_each x xs ≡ keep (λ y. not (same x y)) xs
    remove_each-keep x xs = remove_loop-keep (length xs) x xs (omega arith)
