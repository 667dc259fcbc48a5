-- ===== src/Protocol/Sizes.antt =====
-- The sizes of the memory maps.
use shmrpc.Prelude.{
  ℕ, zero, suc, ◌+◌, ◌*◌, ◌^◌, ◌<◌, ◌≤◌, ltb, ◌≡◌, ◌⊎◌, inl, inr, true, false, refl, arith,
  Bool-cases,
}
use native.Mathlib.Omega.{pow_step}
use shmrpc.Protocol.Memory.{grow, chk_size}

again : (fuel size n : ℕ) → ltb size n ≡ true → grow (suc fuel) size n ≡ grow fuel (size * 2) n
unfolding grow
again fuel size n e = rw (e, grow) refl

stop : (fuel size n : ℕ) → ltb size n ≡ false → grow (suc fuel) size n ≡ size
unfolding grow
stop fuel size n e = rw (e, grow) refl

-- The fuel is enough if the size and the fuel together are.
grow-enough : (fuel size n : ℕ) → 0 < size → n ≤ size + fuel → n ≤ grow fuel size n
unfolding grow
grow-enough zero size n h k = omega (arith, k)
grow-enough (suc fuel) size n h k = elim (Bool-cases (ltb size n)) [
  | inl e ↦
      rw (again fuel size n e)
        (grow-enough fuel (size * 2) n (omega (arith, h)) (omega (arith, h, k)))
  | inr e ↦ rw (stop fuel size n e) (ground (arith, e))
]

grow-least : (fuel size n : ℕ) → (grow fuel size n ≡ size) ⊎ (grow fuel size n < 2 * n)
unfolding grow
grow-least zero size n = inl refl
grow-least (suc fuel) size n = elim (Bool-cases (ltb size n)) [
  | inl e ↦ rw (again fuel size n e) (ground (arith, e, grow-least fuel (size * 2) n))
  | inr e ↦ rw (stop fuel size n e) (inl refl)
]

grow-doubles : (fuel size n : ℕ) → (k : ℕ) × (grow fuel size n ≡ size * 2 ^ k)
unfolding grow
grow-doubles zero size n = (0, omega arith)
grow-doubles (suc fuel) size n = elim (Bool-cases (ltb size n)) [
  | inl e ↦
      let (k, f) = grow-doubles fuel (size * 2) n in
      rw (again fuel size n e) (suc k, rw (pow_step 2 k) (ground (arith, f)))
  | inr e ↦ rw (stop fuel size n e) (0, omega arith)
]

-- The loop over the sizes ends with a size that is enough: the size of a page, doubled some times. If it
-- is not a single page, it is less than twice what is needed.
pub chk_size_lem :
    (page n : ℕ)
    → 0 < page
    → (n ≤ chk_size page n)
      × ((k : ℕ) × (chk_size page n ≡ page * 2 ^ k))
      × ((chk_size page n ≡ page) ⊎ (chk_size page n < 2 * n))
chk_size_lem page n h =
    (grow-enough n page n h (omega arith), grow-doubles n page n, grow-least n page n)
