-- ===== src/Locks/Threads.antt =====
-- States of threads that are numbered from 0: a change at one thread, and sums over the first `n`.
use mephi_os_labs.Prelude.{
  ℕ, zero, suc, ◌+◌, ◌≤◌, ◌<◌, ◌≡◌, refl, ◌≢◌, inl, inr, arith, ◌==◌, if◌then◌else◌, Bool-cases,
}

abbrev pub assign {ℓ} : {A : Type ℓ} → (ℕ → A) → ℕ → A → ℕ → A
assign f i a j = if i == j then a else f j

module _ {ℓ} {A : Type ℓ} (w : A → ℕ) where
  unfoldable pub sum_over : ℕ → (ℕ → A) → ℕ
  sum_over zero f = 0
  sum_over (suc n) f = w (f n) + sum_over n f

  sum_over-assign_beyond :
      (n : ℕ) (f : ℕ → A) (i : ℕ) (a : A) → n ≤ i → sum_over n (assign f i a) ≡ sum_over n f
  unfolding sum_over
  sum_over-assign_beyond zero f i a h = refl
  sum_over-assign_beyond (suc n) f i a h = ground (arith, sum_over-assign_beyond n f i a)

  -- The sum changes by what the one thread adds.
  pub sum_over-assign :
      (n : ℕ) (f : ℕ → A) (i : ℕ) (a : A)
      → i < n
      → sum_over n (assign f i a) + w (f i) ≡ sum_over n f + w a
  unfolding sum_over
  sum_over-assign zero f i a h = absurd (omega arith)
  sum_over-assign (suc n) f i a h = elim (Bool-cases (i == n)) [
    | inl q ↦ ground (arith, sum_over-assign_beyond n f i a)
    | inr q ↦ ground (arith, sum_over-assign n f i a)
  ]

  pub le-sum_over : (n : ℕ) (f : ℕ → A) (i : ℕ) → i < n → w (f i) ≤ sum_over n f
  unfolding sum_over
  le-sum_over zero f i h = absurd (omega arith)
  le-sum_over (suc n) f i h = elim (Bool-cases (i == n)) [
    | inl q ↦ ground arith
    | inr q ↦ ground (arith, le-sum_over n f i)
  ]

  -- Two threads together.
  pub le-sum_over_two :
      (n : ℕ) (f : ℕ → A) (i j : ℕ) → i < j → j < n → w (f i) + w (f j) ≤ sum_over n f
  unfolding sum_over
  le-sum_over_two zero f i j h k = absurd (omega arith)
  le-sum_over_two (suc n) f i j h k = elim (Bool-cases (j == n)) [
    | inl q ↦ ground (arith, le-sum_over n f i)
    | inr q ↦ ground (arith, le-sum_over_two n f i j)
  ]

  pub sum_over-le : (n : ℕ) (f : ℕ → A) → ((a : A) → w a ≤ 1) → sum_over n f ≤ n
  unfolding sum_over
  sum_over-le zero f h = omega arith
  sum_over-le (suc n) f h = omega (arith, h (f n), sum_over-le n f h)

  pub sum_over-zero : (n : ℕ) (a : A) → w a ≡ 0 → sum_over n (λ _. a) ≡ 0
  unfolding sum_over
  sum_over-zero zero a h = refl
  sum_over-zero (suc n) a h = omega (arith, sum_over-zero n a h)

  -- A sum that is not zero has a thread behind it.
  pub sum_over-found : (n : ℕ) (f : ℕ → A) → sum_over n f ≢ 0 → (i : ℕ) × (i < n) × (w (f i) ≢ 0)
  unfolding sum_over
  sum_over-found zero f h = absurd (h refl)
  sum_over-found (suc n) f h = elim (Bool-cases (w (f n) == 0)) [
    | inl q ↦ let (i, lt, g) = sum_over-found n f (λ e. h (ground arith)) in (i, omega arith, g)
    | inr q ↦ (n, omega arith, λ e. ground arith)
  ]
