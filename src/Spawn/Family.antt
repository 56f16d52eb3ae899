-- ===== src/Spawn/Family.antt =====
-- Sums over the first goroutines of a family.
use go_atomos.Common.{
  ℕ, zero, suc, ◌+◌, ◌≤◌, ◌<◌, ◌≡◌, inl, inr, refl, false, arith, ◌==◌, if◌then◌else◌, Bool-cases,
}

-- `f` with `a` at `i`.
abbrev pub set_at {ℓ} : {A : Type ℓ} → ℕ → A → (ℕ → A) → ℕ → A
set_at i a f k = if k == i then a else f k

module _ {A : Type 0} (w : A → ℕ) where
  unfoldable pub sum_below : ℕ → (ℕ → A) → ℕ
  sum_below zero f = 0
  sum_below (suc n) f = w (f n) + sum_below n f

  sum_below-set_at_of_le :
      (n i : ℕ) (a : A) (f : ℕ → A) → n ≤ i → sum_below n (set_at i a f) ≡ sum_below n f
  unfolding sum_below
  sum_below-set_at_of_le zero i a f h = refl
  sum_below-set_at_of_le (suc n) i a f h = ground (arith, sum_below-set_at_of_le n i a f)

  pub sum_below-set_at :
      (n i : ℕ) (a : A) (f : ℕ → A)
      → i < n
      → sum_below n (set_at i a f) + w (f i) ≡ sum_below n f + w a
  unfolding sum_below
  sum_below-set_at zero i a f h = absurd (omega (arith, h))
  sum_below-set_at (suc n) i a f h = elim (Bool-cases (n == i)) [
    | inl same ↦ ground (arith, same, sum_below-set_at_of_le n i a f)
    | inr other ↦ ground (arith, other, sum_below-set_at n i a f)
  ]

  pub le-sum_below : (n i : ℕ) (f : ℕ → A) → i < n → w (f i) ≤ sum_below n f
  unfolding sum_below
  le-sum_below zero i f h = absurd (omega (arith, h))
  le-sum_below (suc n) i f h = elim (Bool-cases (n == i)) [
    | inl same ↦ ground (arith, same)
    | inr other ↦ ground (arith, other, le-sum_below n i f)
  ]

  -- Two members count apart.
  pub pair-sum_below :
      (n i j : ℕ) (a : A) (f : ℕ → A)
      → i < n
      → j < n
      → (j == i) ≡ false
      → w a ≡ 0
      → w (f i) + w (f j) ≤ sum_below n f
  pair-sum_below n i j a f hi hj apart empty =
      ground (arith, sum_below-set_at n i a f hi, le-sum_below n j (set_at i a f) hj)
