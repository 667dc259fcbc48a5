-- ===== src/Network/Received.antt =====
-- What `recv` gives, for the ways in which the bytes may come in.
use shmrpc.Prelude.{
  ℕ, zero, suc, ◌+◌, ◌<◌, ◌≤◌, leb, ◌≡◌, List, [], ◌∷◌, ◌++◌, refl, arith, Bool-cases, inl, inr,
  ◌∙◌, ap,
}
use shmrpc.Protocol.Bytes.{
  Bytes, length, take, drop, length-++, length-drop, take-++, drop-++, ++-assoc,
}
use shmrpc.Network.Stream.{
  got, connection_reset, total, recv_loop, recv, Solid, flat, push, ++-nil, full, closed, whole,
  part,
}

-- The rest of what comes, in whatever chunks.
pub rest_lem :
    (fuel amount : ℕ) (r : Bytes) (cs : List Bytes)
    → Solid cs
    → length r + total cs ≡ amount
    → total cs < fuel
    → recv_loop fuel amount r cs ≡ got (r ++ flat cs) []
rest_lem zero amount r cs s e h = absurd (omega (arith, h))
rest_lem (suc fuel) amount r [] s e h =
    full fuel amount r [] (omega (arith, e)) ∙ rw (++-nil r) refl
rest_lem (suc fuel) amount r ([] ∷ cs) s e h = absurd (omega (arith, s.0))
rest_lem (suc fuel) amount r ((x ∷ b) ∷ cs) s e h =
    whole fuel amount x r b cs (λ f. omega (arith, e, f)) (omega (arith, e))
    ∙ rest_lem fuel amount (r ++ (x ∷ b)) cs s.1 (omega (arith, e, length-++ r (x ∷ b)))
        (omega (arith, h))
    ∙ ap (λ z. got z []) (++-assoc r (x ∷ b) (flat cs))

pub length-flat : (cs : List Bytes) → length (flat cs) ≡ total cs
length-flat [] = refl
length-flat (c ∷ cs) = omega (arith, length-++ c (flat cs), length-flat cs)

pub recv-rest :
    (data_bytes : Bytes) (cs : List Bytes)
    → Solid cs
    → flat cs ≡ data_bytes
    → recv (length data_bytes) cs ≡ got data_bytes []
recv-rest data_bytes cs s e =
    rest_lem (suc (total cs)) (length data_bytes) [] cs s
      (omega (arith, length-flat cs, ap length e)) (omega arith)
    ∙ ap (λ z. got z []) e

length-take : (n : ℕ) (a : Bytes) → n ≤ length a → length (take n a) ≡ n
length-take zero a h = refl
length-take (suc n) [] h = absurd (omega (arith, h))
length-take (suc n) (x ∷ a) h = omega (arith, length-take n a (omega (arith, h)))

first_loop :
    (fuel x : ℕ) (a b : Bytes) (cs : List Bytes)
    → recv_loop (suc (suc fuel)) (length (x ∷ a)) [] ((x ∷ (a ++ b)) ∷ cs) ≡ got (x ∷ a) (push b cs)
first_loop fuel x a [] cs = rw (++-nil a) (
    whole (suc fuel) (length (x ∷ a)) x [] a cs (λ f. omega (arith, f)) (omega arith)
    ∙ full fuel (length (x ∷ a)) (x ∷ a) cs refl)
first_loop fuel x a (y ∷ b) cs =
    part (suc fuel) (length a) x [] (a ++ (y ∷ b)) cs (λ f. omega (arith, f))
      (omega (arith, length-++ a (y ∷ b)))
    ∙ rw (take-++ a (y ∷ b), drop-++ a (y ∷ b))
        (full fuel (length (x ∷ a)) (x ∷ a) ((y ∷ b) ∷ cs) refl)

-- The first bytes, where the first chunk has them.
pub recv-first :
    (a b : Bytes) (cs : List Bytes) → recv (length a) (push (a ++ b) cs) ≡ got a (push b cs)
recv-first [] b cs = full (total (push b cs)) 0 [] (push b cs) refl
recv-first (x ∷ a) b cs =
    let k = length (a ++ b) + total cs in
    let e : total (push (x ∷ (a ++ b)) cs) ≡ suc k = omega arith in
    ap (λ n. recv_loop (suc n) (length (x ∷ a)) [] ((x ∷ (a ++ b)) ∷ cs)) e ∙ first_loop k x a b cs

-- With more bytes than it wants, the loop goes on until the connection is closed.
overrun :
    (fuel amount : ℕ) (r : Bytes) (cs : List Bytes)
    → Solid cs
    → suc amount < length r
    → total cs < fuel
    → recv_loop fuel (suc amount) r cs ≡ connection_reset
overrun zero amount r cs s o h = absurd (omega (arith, h))
overrun (suc fuel) amount r [] s o h = closed fuel (suc amount) r (λ f. omega (arith, f, o))
overrun (suc fuel) amount r ([] ∷ cs) s o h = absurd (omega (arith, s.0))
overrun (suc fuel) amount r ((x ∷ b) ∷ cs) s o h =
    elim (Bool-cases (leb (length (x ∷ b)) (suc amount))) [
      | inl e ↦
          whole fuel (suc amount) x r b cs (λ f. omega (arith, f, o)) (ground (arith, e))
          ∙ overrun fuel amount (r ++ (x ∷ b)) cs s.1 (omega (arith, o, length-++ r (x ∷ b)))
              (omega (arith, h))
      | inr e ↦
          let long : suc amount < length (x ∷ b) = ground (arith, e) in
          let left = length-drop amount b (omega (arith, long)) in
          part fuel amount x r b cs (λ f. omega (arith, f, o)) long
          ∙ overrun fuel amount (r ++ (x ∷ take amount b)) (drop amount b ∷ cs)
              (omega (arith, long, left), s.1) (omega (arith, o, length-++ r (x ∷ take amount b)))
              (omega (arith, h, left, long))
    ]

-- The second chunk of a part.
split_loop :
    (fuel n : ℕ) (r : Bytes) (y : ℕ) (d : Bytes) (cs : List Bytes)
    → Solid cs
    → length r < suc n
    → suc n < length r + length (y ∷ d)
    → total ((y ∷ d) ∷ cs) < fuel
    → 0 < length r
    → recv_loop fuel (suc n) r ((y ∷ d) ∷ cs) ≡ connection_reset
split_loop zero n r y d cs s h k less pos = absurd (omega (arith, less))
split_loop (suc fuel) n r y d cs s h k less pos = elim (Bool-cases (leb (length (y ∷ d)) (suc n))) [
  | inl e ↦
      whole fuel (suc n) y r d cs (λ f. omega (arith, f, h)) (ground (arith, e))
      ∙ overrun fuel n (r ++ (y ∷ d)) cs s (omega (arith, k, length-++ r (y ∷ d)))
          (omega (arith, less))
  | inr e ↦
      let long : suc n < length (y ∷ d) = ground (arith, e) in
      let left = length-drop n d (omega (arith, long)) in
      let taken = length-take n d (omega (arith, long)) in
      part fuel n y r d cs (λ f. omega (arith, f, h)) long
      ∙ overrun fuel n (r ++ (y ∷ take n d)) (drop n d ∷ cs) (omega (arith, long, left), s)
          (omega (arith, pos, taken, length-++ r (y ∷ take n d))) (omega (arith, less, left, long))
]

-- `recv` asks for the whole amount in every round. If the first chunk has only a part of it, and the
-- second more than the rest, it never has the amount it wants: it takes all that comes, and raises
-- ConnectionResetError when the connection is closed.
pub recv-connection_reset :
    (n : ℕ) (c d : Bytes) (cs : List Bytes)
    → Solid (c ∷ d ∷ cs)
    → length c < suc n
    → suc n < length c + length d
    → recv (suc n) (c ∷ d ∷ cs) ≡ connection_reset
recv-connection_reset n [] d cs s h k = absurd (omega (arith, s.0))
recv-connection_reset n (x ∷ b) [] cs s h k = absurd (omega (arith, s.1.0))
recv-connection_reset n (x ∷ b) (y ∷ d) cs s h k =
    let fuel = total ((x ∷ b) ∷ (y ∷ d) ∷ cs) in
    let less : total ((y ∷ d) ∷ cs) < fuel = omega arith in
    whole fuel (suc n) x [] b ((y ∷ d) ∷ cs) (λ f. omega (arith, f)) (omega (arith, h))
    ∙ split_loop fuel n (x ∷ b) y d cs s.1.1 h k less (omega arith)
