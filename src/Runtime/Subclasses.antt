-- ===== src/Runtime/Subclasses.antt =====
-- The matching of exceptions decides which classes are subclasses of which.
use shmrpc.Prelude.{
  ℕ, zero, suc, ◌+◌, ◌<◌, ◌==◌, Option, none, some, Bool, true, false, if◌then◌else◌, List, [], ◌∷◌,
  ◌≡◌, ◌≢◌, ◌↔◌, ◌⊎◌, inl, inr, arith, refl, sym, Bool-cases,
}
use shmrpc.Runtime.ExceptionMatches.{
  Kind, exception_class, tuple, other, Objects, mem, or_then, in_bases, is_subtype, inner_matches2,
  given_matches, any_matches, exception_matches_tuple, exception_matches,
}

-- `bases` are the bases of each class, as the program has declared them.
pub data Subclass (o : Objects) (bases : ℕ → List ℕ) : ℕ → ℕ → Type 0 where
  self : {a : ℕ} → Subclass o bases a a
  top : {a : ℕ} → Subclass o bases a o.base_object
  up : {a p b : ℕ} → mem p (bases a) ≡ true → Subclass o bases p b → Subclass o bases a b

-- A class with one base, whose bases up to the root have one base too.
pub data Chain (o : Objects) (bases : ℕ → List ℕ) : ℕ → Type 0 where
  root : {a : ℕ} → o.tp_base a ≡ none → bases a ≡ [] → Chain o bases a
  derived : {a p : ℕ} → o.tp_base a ≡ some p → bases a ≡ p ∷ [] → Chain o bases p → Chain o bases a

abbrev pub height : {o : Objects} {bases : ℕ → List ℕ} {a : ℕ} → Chain o bases a → ℕ
height (root _ _) = 0
height (derived _ _ c) = height c + 1

-- The result is there, and says whether `P` holds.
abbrev pub Decides : Option Bool → Type 0 → Type 0
Decides (some true) P = P
Decides (some false) P = ¬ P
Decides none P = ⊥

Decides-test : {P : Type 0} (b : Bool) → (b ≡ true → P) → (b ≡ false → ¬ P) → Decides (some b) P
Decides-test true h k = h refl
Decides-test false h k = k refl

decides_if :
    {P : Type 0} (b : Bool) (r : Option Bool)
    → (b ≡ true → P)
    → (b ≡ false → Decides r P)
    → Decides (if b then some true else r) P
decides_if true r h k = h refl
decides_if false r h k = k refl

Decides-iff : {P Q : Type 0} (r : Option Bool) → (P → Q) → (Q → P) → Decides r P → Decides r Q
Decides-iff (some true) f g d = f d
Decides-iff (some false) f g d = λ q. d (g q)
Decides-iff none f g d = d

Decides-or :
    (P Q : Type 0) (r q : Option Bool) → Decides r P → Decides q Q → Decides (or_then r q) (P ⊎ Q)
Decides-or P Q (some true) q d e = inl d
Decides-or P Q (some false) (some true) d e = inr e
Decides-or P Q (some false) (some false) d e = λ h. elim h [ inl x ↦ d x | inr x ↦ e x ]
Decides-or P Q (some false) none d e = e
Decides-or P Q none q d e = d

-- What the interpreter has set up for a class: its mro lists the classes that it is a subclass of; or
-- it has no mro yet, and its bases are a chain that the fuel suffices for.
abbrev pub IsSetUp : (o : Objects) (bases : ℕ → List ℕ) → ℕ → ℕ → Type 0
IsSetUp o bases fuel a =
    ((mro : List ℕ) × (o.tp_mro a ≡ some mro)
      × ((b : ℕ) → (mem b mro ≡ true) ↔ Subclass o bases a b))
    ⊎ ((o.tp_mro a ≡ none) × (c : Chain o bases a) × (height c < fuel))

module _ (o : Objects) (matches : ℕ → ℕ → Bool) (bases : ℕ → List ℕ) where
  above :
      {a b : ℕ}
      → Subclass o bases a b
      → a ≢ b
      → b ≢ o.base_object
      → (p : ℕ) × (mem p (bases a) ≡ true) × Subclass o bases p b
  above self d t = absurd (d refl)
  above top d t = absurd (t refl)
  above (up {p} m s) d t = (p, m, s)

  in_bases-root :
      (fuel a b : ℕ)
      → o.tp_base a ≡ none
      → in_bases o matches (suc fuel) a b ≡ some (b == o.base_object)
  unfolding in_bases
  in_bases-root fuel a b e = rw (e, in_bases) refl

  in_bases-derived :
      (fuel a b p : ℕ)
      → o.tp_base a ≡ some p
      → in_bases o matches (suc fuel) a b
        ≡ (if p == b then some true else in_bases o matches fuel p b)
  unfolding in_bases
  in_bases-derived fuel a b p e = rw (e, in_bases) refl

  equal_self : {a b : ℕ} → a ≡ b → Subclass o bases a b
  equal_self e = rw e self

  one_base : (a p b : ℕ) → bases a ≡ p ∷ [] → a ≢ b → Subclass o bases a b → Subclass o bases p b
  one_base a p b f d self = absurd (d refl)
  one_base a p b f d top = top
  one_base a p b f d (up {p = q} m s) = let k : q ≡ p = ground (arith, f, m) in rw (sym k) s

  in_bases-Decides :
      (fuel a b : ℕ)
      → a ≢ b
      → (c : Chain o bases a) → height c < fuel
      → Decides (in_bases o matches fuel a b) (Subclass o bases a b)
  in_bases-Decides zero a b d c l = absurd (omega (arith, l))
  in_bases-Decides (suc fuel) a b d (root e f) l = rw (in_bases-root fuel a b e) (
      Decides-test (b == o.base_object)
        (λ h. let k : o.base_object ≡ b = ground (arith, h) in rw (sym k) top)
        (λ h s. let (p, m, t) = above s d (λ k. ground (arith, h, k)) in ground (arith, f, m)))
  in_bases-Decides (suc fuel) a b d (derived {p} e f c) l =
      let m : mem p (bases a) ≡ true = rw f (ground arith) in
      rw (in_bases-derived fuel a b p e) (
        decides_if (p == b) _ (λ h. up m (equal_self (ground (arith, h))))
          (λ h.
            Decides-iff (in_bases o matches fuel p b) (up m) (one_base a p b f d)
              (in_bases-Decides fuel p b (λ k. ground (arith, h, k)) c (omega (arith, l)))))

  is_subtype-Decides :
      (fuel a b : ℕ)
      → IsSetUp o bases fuel a
      → Decides (is_subtype o matches fuel a b) (Subclass o bases a b)
  unfolding is_subtype
  is_subtype-Decides fuel a b (inl (mro, e, h)) =
      decides_if (a == b) _ (λ k. equal_self (ground (arith, k)))
        (λ k. rw e (Decides-test (mem b mro) (h b).0 (λ f s. ground (arith, f, (h b).1 s))))
  is_subtype-Decides fuel a b (inr (e, c, l)) =
      decides_if (a == b) _ (λ k. equal_self (ground (arith, k)))
        (λ k. rw e (in_bases-Decides fuel a b (λ x. ground (arith, k, x)) c l))

  -- A class is a subclass of one of these.
  abbrev pub SomeOf : ℕ → List ℕ → Type 0
  SomeOf a [] = ⊥
  SomeOf a (t ∷ ts) = Subclass o bases a t ⊎ SomeOf a ts

  abbrev pub AllClasses : List ℕ → Type 0
  AllClasses [] = Unit {0}
  AllClasses (t ∷ ts) = (o.kind t ≡ exception_class) × AllClasses ts

  -- What an `except` clause can name: an exception class, or a tuple of them.
  abbrev pub IsClause : Kind → Type 0
  IsClause exception_class = Unit {0}
  IsClause (tuple ts) = AllClasses ts
  IsClause other = ⊥

  abbrev pub Catches : Kind → ℕ → ℕ → Type 0
  Catches exception_class a err = Subclass o bases a err
  Catches (tuple ts) a err = SomeOf a ts
  Catches other a err = ⊥

  mem-SomeOf : (a : ℕ) (ts : List ℕ) → mem a ts ≡ true → SomeOf a ts
  mem-SomeOf a [] h = ground (arith, h)
  mem-SomeOf a (t ∷ ts) h = elim (Bool-cases (t == a)) [
    | inl e ↦ inl (equal_self (ground (arith, e)))
    | inr e ↦ inr (mem-SomeOf a ts (ground (arith, e, h)))
  ]

  module _ (fuel a : ℕ) (is_class : o.kind a ≡ exception_class)
      (ready : IsSetUp o bases fuel a) where
    pub given_matches-Decides :
        (t : ℕ)
        → o.kind t ≡ exception_class
        → Decides (given_matches o matches fuel a t) (Subclass o bases a t)
    unfolding given_matches inner_matches2
    given_matches-Decides t e =
        decides_if (a == t) _ (λ k. equal_self (ground (arith, k)))
          (λ k. rw (is_class, e) (is_subtype-Decides fuel a t ready))

    any_matches-Decides :
        (ts : List ℕ) → AllClasses ts → Decides (any_matches o matches fuel a ts) (SomeOf a ts)
    unfolding any_matches
    any_matches-Decides [] h = λ z. z
    any_matches-Decides (t ∷ ts) h =
        Decides-or (Subclass o bases a t) (SomeOf a ts) (given_matches o matches fuel a t)
          (any_matches o matches fuel a ts) (given_matches-Decides t h.0)
          (any_matches-Decides ts h.1)

    no_tuple : (err : ℕ) (ts : List ℕ) → o.kind err ≡ tuple ts → a ≢ err
    no_tuple err ts e k = ground (arith, is_class, e, k)

    clause-Decides :
        (err : ℕ) (k : Kind)
        → o.kind err ≡ k
        → IsClause k
        → Decides (exception_matches o matches fuel (some a) err) (Catches k a err)
    unfolding exception_matches exception_matches_tuple
    clause-Decides err exception_class e h =
        decides_if (a == err) _ (λ k. equal_self (ground (arith, k)))
          (λ k. rw e (given_matches-Decides err e))
    clause-Decides err (tuple ts) e h =
        decides_if (a == err) _ (λ k. absurd (no_tuple err ts e (ground (arith, k))))
          (λ k. rw e (decides_if (mem a ts) _ (mem-SomeOf a ts) (λ m. any_matches-Decides ts h)))
    clause-Decides err other e h = absurd h

    -- The pending exception is of a class whose superclasses its mro lists, or, before there is an mro,
    -- whose bases are a chain. Then an `except` clause that names a class or a tuple of classes catches
    -- it exactly if its class is a subclass of one of them, and the search ends.
    pub exception_matches_lem :
        (err : ℕ)
        → IsClause (o.kind err)
        → Decides (exception_matches o matches fuel (some a) err) (Catches (o.kind err) a err)
    exception_matches_lem err h = clause-Decides err (o.kind err) refl h
