-- ===== src/Runtime/Binding/Keywords.antt =====
-- The `switch` on the number of positional arguments looks up every parameter that is left, and
-- `__Pyx_ParseOptionalKeywords` runs only if another keyword is there.
use shmrpc.Prelude.{
  ℕ, zero, suc, ◌+◌, ◌-◌, ◌≤◌, ◌<◌, ◌==◌, String, Option, none, some, true, false, ◌&&◌,
  if◌then◌else◌, List, [], ◌∷◌, ◌++◌, ◌≡◌, arith, refl, ap, Bool-cases, Option-cases, inl, inr,
}
use shmrpc.Machine.State.{update}
use shmrpc.Runtime.IntFromPy.{
  Object, Conversion, value, overflow_error, type_error, other_error, null_pointer, bind,
}
use shmrpc.Runtime.Arguments.{
  Key, Item, dict_size, get_item, Values, index_of, first_kw_arg, parse_optional_keywords,
  take_keyword, require_keyword, parse_rest,
}
use shmrpc.Runtime.Wrappers.{and_rest}
use shmrpc.Runtime.Binding.{length, is_name, known, have, lookups, IsDict, Distinct}
use shmrpc.Runtime.Binding.Counting.{has, found, known-others, size_lem}

index_of_lem : (ns : List String) (i : ℕ) (k : Key) → is_name ns k ≡ false → index_of ns i k ≡ none
index_of_lem [] i k h = refl
index_of_lem (n ∷ ns) i k h = ground (arith, h, index_of_lem ns (i + 1) k)

parse-unknown :
    (names : List String) (p : ℕ) (d : List Item) (v : Values)
    → known (first_kw_arg names p) d ≡ false
    → parse_optional_keywords names p d v ≡ type_error
unfolding parse_optional_keywords
parse-unknown names p [] v h = ground (arith, h)
parse-unknown names p (i ∷ d) v h = elim (Bool-cases (is_name (first_kw_arg names p) i.key)) [
  | inl a ↦ elim (Option-cases (index_of (first_kw_arg names p) p i.key)) [
    | inl e ↦ rw (e, parse_optional_keywords) refl
    | inr (j, e) ↦
        rw (e, parse_optional_keywords)
          (parse-unknown names p d (update v j (some i.item)) (ground (arith, a, h)))
  ]
  | inr a ↦ rw (index_of_lem (first_kw_arg names p) p i.key a, parse_optional_keywords) refl
]

parse_rest_lem :
    (names : List String) (p : ℕ) (d : List Item) (w : Values × ℕ)
    → known (first_kw_arg names p) d ≡ (w.1 == 0)
    → parse_rest names p d w ≡ (if known (first_kw_arg names p) d then value w.0 else type_error)
parse_rest_lem names p d w e = ground (arith, e, parse-unknown names p d w.0)

abbrev or_else : Option Object → Option Object → Option Object
or_else none y = y
or_else (some x) y = some x

take_keyword_lem :
    (name : String) (i : ℕ) (d : List Item) (w : Values × ℕ)
    → has name d ≤ w.1
    → ((take_keyword name i d w).1 ≡ w.1 - has name d)
      × ((j : ℕ)
          → (take_keyword name i d w).0 j
            ≡ (if i == j then or_else (get_item name d) (w.0 j) else w.0 j))
take_keyword_lem name i d w l = (ground (arith, l), λ j. ground (arith, l))

-- The values with the indices from `i` on.
abbrev pub seen : ℕ → ℕ → Values → List (Option Object)
seen i zero v = []
seen i (suc k) v = v i ∷ seen (i + 1) k v

seen-append :
    (i p j k t : ℕ) (v : Values) → i + p ≡ j → p + k ≡ t → seen i t v ≡ seen i p v ++ seen j k v
seen-append i zero j k t v e f =
    let e' : i ≡ j = omega arith in let f' : k ≡ t = omega arith in rw (e', f') refl
seen-append i (suc p) j k zero v e f = absurd (omega arith)
seen-append i (suc p) j k (suc t) v e f =
    ap (λ l. v i ∷ l) (seen-append (i + 1) p j k t v (omega arith) (omega arith))

seen-same :
    (i p : ℕ) (v v' : Values) → ((j : ℕ) → j < i + p → v j ≡ v' j) → seen i p v ≡ seen i p v'
seen-same i zero v v' h = refl
seen-same i (suc p) v v' h =
    rw (h i (omega arith), seen-same (i + 1) p v v' (λ j l. h j (omega (arith, l)))) refl

-- The lookup of all parameters from the index `i` on, the first `required` of them without a default.
abbrev pub take_all : ℕ → ℕ → List String → List Item → Values × ℕ → Conversion (Values × ℕ)
take_all required i [] d w = value w
take_all zero i (n ∷ ns) d w = take_all zero (i + 1) ns d (take_keyword n i d w)
take_all (suc required) i (n ∷ ns) d w =
    bind (require_keyword n i d w) (take_all required (i + 1) ns d)

abbrev Taken : ℕ → ℕ → List String → List Item → Values × ℕ → Conversion (Values × ℕ) → Type 0
Taken required i ns d w (value x) =
    (have required ns d ≡ true)
    × (x.1 ≡ w.1 - found ns d)
    × (seen i (length ns) x.0 ≡ lookups ns d)
    × ((j : ℕ) → j < i → x.0 j ≡ w.0 j)
Taken required i ns d w type_error = have required ns d ≡ false
Taken required i ns d w _ = ⊥

Taken-cons :
    (r r' i : ℕ) (n : String) (ns : List String) (d : List Item) (w x : Values × ℕ)
    → have r' (n ∷ ns) d ≡ have r ns d
    → x.1 ≡ w.1 - has n d
    → x.0 i ≡ get_item n d
    → ((j : ℕ) → j < i → x.0 j ≡ w.0 j)
    → (c : Conversion (Values × ℕ)) → Taken r (i + 1) ns d x c
    → Taken r' i (n ∷ ns) d w c
Taken-cons r r' i n ns d w x e f g h (value y) t = (
  ground (arith, e, t),
  ground (arith, f, t),
  rw (t.3 i (omega arith), g, t.2) refl,
  λ j l. ground (arith, t.3 j, h j, l),
)
Taken-cons r r' i n ns d w x e f g h type_error t = ground (arith, e, t)
Taken-cons r r' i n ns d w x e f g h overflow_error t = t
Taken-cons r r' i n ns d w x e f g h other_error t = t
Taken-cons r r' i n ns d w x e f g h null_pointer t = t

have-nil : (r : ℕ) (d : List Item) → have r [] d ≡ true
have-nil zero d = refl
have-nil (suc r) d = refl

take_all_lem :
    (r i : ℕ) (ns : List String) (d : List Item) (w : Values × ℕ)
    → ((j : ℕ) → i ≤ j → w.0 j ≡ none)
    → found ns d ≤ w.1
    → Taken r i ns d w (take_all r i ns d w)
take_all_lem r i [] d w free l = (have-nil r d, ground arith, refl, λ j k. refl)
take_all_lem zero i (n ∷ ns) d w free l =
    let x = take_keyword n i d w in
    let (a, b) = take_keyword_lem n i d w (omega (arith, l)) in
    Taken-cons zero zero i n ns d w x (ground arith) a (ground (arith, b i, free i))
      (λ j k. ground (arith, b j)) (take_all zero (i + 1) ns d x)
      (take_all_lem zero (i + 1) ns d x (λ j k. ground (arith, b j, free j)) (omega (arith, a, l)))
take_all_lem (suc r) i (n ∷ ns) d w free l = elim (Option-cases (get_item n d)) [
  | inl e ↦
      let f : take_all (suc r) i (n ∷ ns) d w ≡ type_error = rw (e, require_keyword) refl in
      rw f (ground (arith, e))
  | inr (o, e) ↦
      let x : Values × ℕ = (update w.0 i (some o), w.1 - 1) in
      let a : x.1 ≡ w.1 - has n d = rw (e, has) refl in
      let b : has n d ≡ 1 = rw (e, has) refl in
      let f : take_all (suc r) i (n ∷ ns) d w ≡ take_all r (i + 1) ns d x =
        rw (e, require_keyword) refl in
      rw f (
        Taken-cons r (suc r) i n ns d w x (ground (arith, e)) a (ground (arith, e))
          (λ j k. ground arith) (take_all r (i + 1) ns d x)
          (take_all_lem r (i + 1) ns d x (λ j k. ground (arith, free j)) (omega (arith, a, b, l))))
]

-- The values of all parameters, in their order.
abbrev pub observe : ℕ → Conversion Values → Conversion (List (Option Object))
observe n c = bind c (λ v. value (seen 0 n v))

module _ (names : List String) (required p total : ℕ) (d : List Item) (v : Values) (u : IsDict d)
    (differ : Distinct (first_kw_arg names p)) where
  abbrev rest : List String
  rest = first_kw_arg names p

  Taken-bound :
      (c : Conversion (Values × ℕ))
      → Taken required p rest d (v, dict_size d) c
      → p + length rest ≡ total
      → observe total (and_rest names p d c) ≡ (
          if known rest d && have required rest d
          then value (seen 0 p v ++ lookups rest d)
          else type_error)
  Taken-bound (value x) t e =
      let count : known rest d ≡ (x.1 == 0) =
        ground (arith, t.1, size_lem rest d differ u, known-others rest d) in
      let values : seen 0 total x.0 ≡ seen 0 p v ++ lookups rest d =
        rw
          (
            seen-append 0 p p (length rest) total x.0 (omega arith) e,
            seen-same 0 p x.0 v (λ j l. t.3 j (omega (arith, l))),
            t.2,
          )
          refl in
      rw (parse_rest_lem names p d x count, t.0) (ground (arith, values))
  Taken-bound type_error t e = rw t (ground arith)
  Taken-bound overflow_error t e = absurd t
  Taken-bound other_error t e = absurd t
  Taken-bound null_pointer t e = absurd t

  pub keywords-bound :
      ((j : ℕ) → p ≤ j → v j ≡ none)
      → p + length rest ≡ total
      → observe total (and_rest names p d (take_all required p rest d (v, dict_size d))) ≡ (
          if known rest d && have required rest d
          then value (seen 0 p v ++ lookups rest d)
          else type_error)
  keywords-bound free e =
      Taken-bound (take_all required p rest d (v, dict_size d))
        (take_all_lem required p rest d (v, dict_size d) free
          (omega (arith, size_lem rest d differ u)))
        e
