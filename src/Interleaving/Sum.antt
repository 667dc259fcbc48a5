-- ===== src/Interleaving/Sum.antt =====
-- Sums over the processes 0 … n - 1, and how a change at one process changes them.
use shmrpc.Prelude.{ℕ, zero, suc, ◌+◌, ◌≤◌, ◌<◌, ◌≡◌, ◌≢◌, ◌*◌, ◌⊎◌, inl, inr, refl, arith}
use native.Mathlib.Decide.{dec_lt}
use shmrpc.Machine.State.{update}

module _ {ℓ} {A : Type ℓ} (w : A → ℕ) where
  pub sum_below : ℕ → (ℕ → A) → ℕ
  sum_below zero f = 0
  sum_below (suc n) f = w (f n) + sum_below n f

  sum-update_outside :
      (n : ℕ) (f : ℕ → A) (i : ℕ) (a : A) → n ≤ i → sum_below n (update f i a) ≡ sum_below n f
  unfolding sum_below
  sum-update_outside zero f i a out = refl
  sum-update_outside (suc n) f i a out = ground (arith, sum-update_outside n f i a)

  -- The old weight of process `i` is exchanged for the new one.
  pub sum-update :
      (n : ℕ) (f : ℕ → A) (i : ℕ) (a : A)
      → i < n
      → w (f i) + sum_below n (update f i a) ≡ w a + sum_below n f
  unfolding sum_below
  sum-update zero f i a inside = absurd (omega arith)
  sum-update (suc n) f i a inside = elim (dec_lt i n) [
    | yes earlier ↦ ground (arith, sum-update n f i a earlier)
    | no last ↦ ground (arith, sum-update_outside n f i a)
  ]

  pub le-sum : (n : ℕ) (f : ℕ → A) (i : ℕ) → i < n → w (f i) ≤ sum_below n f
  unfolding sum_below
  le-sum zero f i inside = absurd (omega arith)
  le-sum (suc n) f i inside = elim (dec_lt i n) [
    | yes earlier ↦ omega (arith, le-sum n f i earlier)
    | no last ↦ ground arith
  ]

  -- Two different processes weigh no more than all together.
  pub add-le-sum :
      (n : ℕ) (f : ℕ → A) (i j : ℕ) → i < n → j < n → i ≢ j → w (f i) + w (f j) ≤ sum_below n f
  unfolding sum_below
  add-le-sum zero f i j below_i below_j differ = absurd (omega arith)
  add-le-sum (suc n) f i j below_i below_j differ = elim (dec_lt i n) [
    | yes p ↦ elim (dec_lt j n) [
      | yes q ↦ omega (arith, add-le-sum n f i j p q differ)
      | no q ↦ ground (arith, le-sum n f i p)
    ]
    | no p ↦ ground (arith, le-sum n f j)
  ]

  pub sum-zero : (n : ℕ) (a : A) → w a ≡ 0 → sum_below n (λ _. a) ≡ 0
  unfolding sum_below
  sum-zero zero a none_there = refl
  sum-zero (suc n) a none_there = omega (arith, sum-zero n a none_there)

  -- One that weighs something, or none does.
  pub some-heavy : (n : ℕ) (f : ℕ → A) → ((i : ℕ) × (i < n) × (0 < w (f i))) ⊎ (sum_below n f ≡ 0)
  unfolding sum_below
  some-heavy zero f = inr refl
  some-heavy (suc n) f = elim (dec_lt 0 (w (f n))) [
    | yes h ↦ inl (n, omega arith, h)
    | no h ↦ elim (some-heavy n f) [
      | inl (i, l, k) ↦ inl (i, omega (arith, l), k)
      | inr e ↦ inr (omega (arith, h, e))
    ]
  ]

  pub sum-le : (b n : ℕ) (f : ℕ → A) → ((a : A) → w a ≤ b) → sum_below n f ≤ b * n
  unfolding sum_below
  sum-le b zero f h = omega arith
  sum-le b (suc n) f h = omega (arith, h (f n), sum-le b n f h)
