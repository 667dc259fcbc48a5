-- ===== src/Protocol/Bytes.antt =====
-- Python's bytes, with what `struct` packs into them: big-endian numbers of 2 and of 4 bytes.
use shmrpc.Prelude.{
  ℕ, zero, suc, ◌+◌, ◌*◌, ◌/◌, ◌%◌, ◌≤◌, List, [], ◌∷◌, ◌++◌, ◌≡◌, refl, ap, arith,
}

abbrev pub Bytes : Type 0
Bytes = List ℕ

abbrev pub length : Bytes → ℕ
length [] = 0
length (b ∷ bs) = suc (length bs)

abbrev pub take : ℕ → Bytes → Bytes
take zero bs = []
take (suc n) [] = []
take (suc n) (b ∷ bs) = b ∷ take n bs

abbrev pub drop : ℕ → Bytes → Bytes
drop zero bs = bs
drop (suc n) [] = []
drop (suc n) (b ∷ bs) = drop n bs

-- New shared memory reads as zeros.
abbrev pub zeros : ℕ → Bytes
zeros zero = []
zeros (suc n) = 0 ∷ zeros n

pub length-zeros : (n : ℕ) → length (zeros n) ≡ n
length-zeros zero = refl
length-zeros (suc n) = ap suc (length-zeros n)

pub length-++ : (a b : Bytes) → length (a ++ b) ≡ length a + length b
length-++ [] b = omega arith
length-++ (x ∷ a) b = omega (arith, length-++ a b)

pub take-++ : (a b : Bytes) → take (length a) (a ++ b) ≡ a
take-++ [] b = refl
take-++ (x ∷ a) b = ap (λ c. x ∷ c) (take-++ a b)

pub drop-++ : (a b : Bytes) → drop (length a) (a ++ b) ≡ b
drop-++ [] b = refl
drop-++ (x ∷ a) b = drop-++ a b

pub ++-assoc : (a b c : Bytes) → (a ++ b) ++ c ≡ a ++ (b ++ c)
++-assoc [] b c = refl
++-assoc (x ∷ a) b c = ap (λ d. x ∷ d) (++-assoc a b c)

pub length-drop : (n : ℕ) (a : Bytes) → n ≤ length a → length (drop n a) + n ≡ length a
length-drop zero a h = omega arith
length-drop (suc n) [] h = absurd (omega (arith, h))
length-drop (suc n) (x ∷ a) h = omega (arith, length-drop n a (omega (arith, h)))

-- The formats `!H` and `!I`.
abbrev pub be16 : ℕ → Bytes
be16 n = n / 256 ∷ n % 256 ∷ []

abbrev pub be32 : ℕ → Bytes
be32 n = n / 16777216 ∷ n / 65536 % 256 ∷ n / 256 % 256 ∷ n % 256 ∷ []

abbrev pub of_be16 : ℕ → ℕ → ℕ
of_be16 a b = a * 256 + b

abbrev pub of_be32 : ℕ → ℕ → ℕ → ℕ → ℕ
of_be32 a b c d = a * 16777216 + b * 65536 + c * 256 + d

pub of_be16-be16 : (n : ℕ) → of_be16 (n / 256) (n % 256) ≡ n
of_be16-be16 n = omega arith

pub of_be32-be32 : (n : ℕ) → of_be32 (n / 16777216) (n / 65536 % 256) (n / 256 % 256) (n % 256) ≡ n
of_be32-be32 n = omega arith
