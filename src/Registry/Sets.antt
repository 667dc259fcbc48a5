-- ===== src/Registry/Sets.antt =====
-- What is in a set, and how often something stands in a list.
use shmrpc.Prelude.{
  ℕ, suc, ◌≡◌, Bool, true, false, not, ◌&&◌, List, [], ◌∷◌, refl, arith, if◌then◌else◌,
}
use shmrpc.Registry.Lists.{member, remove, Distinct}

module _ {ℓ} {A : Type ℓ} (same : A → A → Bool) where
  abbrev pub count : A → List A → ℕ
  count x [] = 0
  count x (y ∷ ys) = if same x y then suc (count x ys) else count x ys

  module _ (own : (a : A) → same a a ≡ true) (only : (a b : A) → same a b ≡ true → a ≡ b) where
    pub member-remove :
        (x y : A) (xs : List A)
        → Distinct same xs
        → member same x (remove same y xs) ≡ (not (same y x) && member same x xs)
    member-remove x y [] d = ground arith
    member-remove x y (z ∷ xs) d =
        ground (arith, member-remove x y xs d.1, only x z, only y z, only y x, own x, d)

    pub remove-Distinct :
        (y : A) (xs : List A) → Distinct same xs → Distinct same (remove same y xs)
    remove-Distinct y [] d = tt
    remove-Distinct y (z ∷ xs) d =
        ground (arith, d, member-remove z y xs d.1, remove-Distinct y xs d.1)

    pub count-Distinct :
        (x : A) (xs : List A) → Distinct same xs → count x xs ≡ (if member same x xs then 1 else 0)
    count-Distinct x [] d = refl
    count-Distinct x (y ∷ xs) d = ground (arith, count-Distinct x xs d.1, only x y, d.0)

    -- Another element stays.
    pub member-other :
        (x y : A) (xs : List A)
        → same x y ≡ false
        → member same x (remove same y xs) ≡ member same x xs
    member-other x y [] e = refl
    member-other x y (z ∷ xs) e = ground (arith, e, member-other x y xs e, only y z)

    pub absent-remove :
        (x y : A) (xs : List A)
        → member same x xs ≡ false
        → member same x (remove same y xs) ≡ false
    absent-remove x y [] e = refl
    absent-remove x y (z ∷ xs) e = ground (arith, e, absent-remove x y xs)
