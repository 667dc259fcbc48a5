-- ===== src/Registry/Stored.antt =====
-- What stands in the page when a method has run.
use shmrpc.Prelude.{
  not, ◌⊎◌, if◌then◌else◌, Bool, ℕ, zero, suc, Bool-cases, inl, inr, ◌+◌, ◌<◌, ◌≤◌, leb, [], ◌∷◌,
  ◌++◌, ◌≡◌, Option, some, true, false, refl, ap, arith,
}
use shmrpc.Protocol.Bytes.{
  Bytes, length, take, drop, be32, of_be32-be32, take-++, length-++, length-drop,
}
use shmrpc.Registry.Store.{
  Store, wrong_size, lock_raised, Stored, gives, faults, text_of, decode, store_text, encode,
  released, change_lists,
}

-- The text, behind its length, and what was there before.
abbrev pub page_with : Bytes → Bytes → Bytes
page_with encoded old = be32 (length encoded) ++ (encoded ++ drop (length encoded) old)

text_of-page_with : (encoded old : Bytes) → text_of (page_with encoded old) ≡ some encoded
text_of-page_with encoded old =
    rw (of_be32-be32 (length encoded), take-++ encoded (drop (length encoded) old)) refl

length-page_with :
    (encoded old : Bytes)
    → length encoded ≤ length old
    → length (page_with encoded old) ≡ 4 + length old
length-page_with encoded old h =
    omega (arith, length-++ encoded (drop (length encoded) old), length-drop (length encoded) old h)

take-all : (n : ℕ) (bs : Bytes) → length bs ≤ n → take n bs ≡ bs
take-all zero [] h = refl
take-all zero (b ∷ bs) h = absurd (omega (arith, h))
take-all (suc n) [] h = refl
take-all (suc n) (b ∷ bs) h = ap (λ c. b ∷ c) (take-all n bs (omega (arith, h)))

module _ {V : Type 0} (dumps : V → Bytes) (loads : Bytes → Option V)
    (loads-dumps : (v : V) → loads (dumps v) ≡ some v) where
  store_text-fits :
      (a b c d : ℕ) (old encoded : Bytes)
      → length encoded < 4294967296
      → length encoded ≤ length old
      → store_text dumps loads encoded
          (record { body = a ∷ b ∷ c ∷ d ∷ old; lock_acquired = true; locked = true })
        ≡ gives tt (record { body = page_with encoded old; lock_acquired = true; locked = true })
  store_text-fits a b c d old encoded small fits = ground (arith, small, fits)

  -- Where the page is too small, the new length stands before the old bytes.
  store_text-overflows :
      (a b c d : ℕ) (old encoded : Bytes)
      → length encoded < 4294967296
      → length old < length encoded
      → store_text dumps loads encoded
          (record { body = a ∷ b ∷ c ∷ d ∷ old; lock_acquired = true; locked = true })
        ≡ faults wrong_size
            (record { body = be32 (length encoded) ++ old; lock_acquired = true; locked = true })
  store_text-overflows a b c d old encoded small big = ground (arith, small, big)

  -- The lists stand in the page.
  abbrev pub Holds : V → Store → Type 0
  Holds v s = (old : Bytes) × (s.body ≡ page_with (dumps v) old)

  decode-Holds :
      (v : V) (old : Bytes)
      → decode dumps loads
          (record { body = page_with (dumps v) old; lock_acquired = true; locked = true })
        ≡ gives v (record { body = page_with (dumps v) old; lock_acquired = true; locked = true })
  unfolding decode
  decode-Holds v old =
      rw
        (
          of_be32-be32 (length (dumps v)),
          take-++ (dumps v) (drop (length (dumps v)) old),
          loads-dumps v,
        )
        refl

  module _ (unlock_ok : Bool) where
    -- The lock is given back, unless `unlock` has raised.
    abbrev pub IsGivenBack : Store → Type 0
    IsGivenBack t = (t.locked ≡ not unlock_ok) × (t.lock_acquired ≡ false)

    -- What a method leaves that makes `w` of the lists.
    abbrev pub Leaves : Bool → V → Store → Stored (Unit {0}) → Type 0
    Leaves lock_ok w s (gives a t) =
        (lock_ok ≡ true)
        × (4 + length (dumps w) ≤ length s.body)
        × Holds w t
        × (length t.body ≡ length s.body)
        × IsGivenBack t
    Leaves lock_ok w s (faults e t) =
        ((lock_ok ≡ false) × (e ≡ lock_raised) × (t ≡ s))
        ⊎ ((lock_ok ≡ true)
            × (length s.body < 4 + length (dumps w))
            × (e ≡ wrong_size)
            × (text_of t.body ≡ some (drop 4 s.body))
            × IsGivenBack t)

    given_back : (if unlock_ok then false else true) ≡ not unlock_ok
    given_back = ground arith

    text-Leaves :
        (w : V) (a b c d : ℕ) (old : Bytes)
        → length (dumps w) < 4294967296
        → Leaves true w
            (record { body = a ∷ b ∷ c ∷ d ∷ old; lock_acquired = false; locked = false })
            (released dumps loads true unlock_ok (
              store_text dumps loads
                (dumps w)
                (record { body = a ∷ b ∷ c ∷ d ∷ old; lock_acquired = true; locked = true })))
    text-Leaves w a b c d old small = elim (Bool-cases (leb (length (dumps w)) (length old))) [
      | inl e ↦
          let fits : length (dumps w) ≤ length old = ground (arith, e) in
          rw (store_text-fits a b c d old (dumps w) small fits) (
            refl,
            omega (arith, fits),
            (old, refl),
            omega (arith, length-page_with (dumps w) old fits),
            (given_back, refl),
          )
      | inr e ↦
          let big : length old < length (dumps w) = ground (arith, e) in
          rw (store_text-overflows a b c d old (dumps w) small big) (
            inr (
              refl,
              omega (arith, big),
              refl,
              rw
                  (
                    of_be32-be32 (length (dumps w)),
                    take-all (length (dumps w)) old (omega (arith, big)),
                  )
                  refl,
              (given_back, refl),
            ))
    ]

    -- A method of the manager, whose lock is free, on a page that holds the lists `v`, of which it makes
    -- `f v`, whose text is shorter than 2 ^ 32. If the lock is taken and the text has room in the page,
    -- the page holds the new lists, and is as long as before. If it has none, the method raises
    -- IndexError, and the length of the new text stands in the page before the old bytes, so that the
    -- next text that is read is the whole page. In both cases the lock is given back, unless its
    -- `unlock` raises, which is passed over, and then it stays taken. If `lock` raises, nothing is changed.
    pub change_lists_lem :
        (lock_ok : Bool) (f : V → V) (v : V) (old : Bytes)
        → length (dumps (f v)) < 4294967296
        → Leaves lock_ok
            (f v)
            (record { body = page_with (dumps v) old; lock_acquired = false; locked = false })
            (change_lists dumps loads lock_ok unlock_ok f
              (record { body = page_with (dumps v) old; lock_acquired = false; locked = false }))
    unfolding change_lists encode
    change_lists_lem true f v old small =
        rw (change_lists, decode-Holds v old, encode)
          (text-Leaves (f v) _ _ _ _ (dumps v ++ drop (length (dumps v)) old) small)
    change_lists_lem false f v old small = inl (refl, refl, refl)
