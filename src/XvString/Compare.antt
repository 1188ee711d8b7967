-- ===== src/XvString/Compare.antt =====
-- What the functions on strings compare and measure.
use mephi_os_labs.Prelude.{
  ℕ, zero, suc, ◌+◌, ◌≤◌, ◌<◌, ◌≡◌, refl, ap, ◌∙◌, ◌≢◌, ◌↔◌, inl, inr, Bool, true, false, not, ◌&&◌,
  some, arith, ◌==◌, if◌then◌else◌, Bool-cases,
}
use mephi_os_labs.XvString.{byte_difference, memcmp, strncmp, strlen_from, strlen}

-- Two ranges hold bytes.
abbrev pub AreBytes : (ℕ → ℕ) → Type 0
AreBytes m = (a : ℕ) → m a < 256

abbrev pub SameRange : (ℕ → ℕ) → ℕ → ℕ → ℕ → Type 0
SameRange m a b n = (i : ℕ) → i < n → m (a + i) ≡ m (b + i)

-- The strings agree on `n` bytes or up to their NUL.
abbrev pub SameString : (ℕ → ℕ) → ℕ → ℕ → ℕ → Type 0
SameString m a b n = (i : ℕ) → i < n → ((j : ℕ) → j < i → m (a + j) ≢ 0) → m (a + i) ≡ m (b + i)

byte_difference_nonzero : (a b : ℕ) → a < 256 → b < 256 → a ≢ b → byte_difference a b ≢ 0
byte_difference_nonzero a b ha hb h e = ground arith

SameRange-cons :
    (m : ℕ → ℕ) (a b n : ℕ) → m a ≡ m b → SameRange m (a + 1) (b + 1) n → SameRange m a b (suc n)
SameRange-cons m a b n e r zero l = ap m (omega arith) ∙ e ∙ ap m (omega arith)
SameRange-cons m a b n e r (suc i) l = ap m (omega arith) ∙ r i (omega arith) ∙ ap m (omega arith)

SameString-cons :
    (m : ℕ → ℕ) (a b n : ℕ)
    → m a ≡ m b
    → (m a ≢ 0 → SameString m (a + 1) (b + 1) n)
    → SameString m a b (suc n)
SameString-cons m a b n e r zero l before = ap m (omega arith) ∙ e ∙ ap m (omega arith)
SameString-cons m a b n e r (suc i) l before =
    ap m (omega arith)
    ∙ r (λ z. before 0 (omega arith) (ap m (omega arith) ∙ z)) i (omega arith)
        (λ j h z. before (suc j) (omega arith) (ap m (omega arith) ∙ z))
    ∙ ap m (omega arith)

module _ (m : ℕ → ℕ) (bytes : AreBytes m) where
  -- `memcmp` of bytes gives 0 exactly when the ranges are the same.
  pub memcmp_zero_iff : (a b n : ℕ) → (memcmp m a b n ≡ 0) ↔ SameRange m a b n
  unfolding memcmp
  memcmp_zero_iff a b zero = (λ e i l. absurd (omega arith), λ r. refl)
  memcmp_zero_iff a b (suc n) = elim (Bool-cases (m a == m b)) [
    | inl e ↦ rw e (
      λ z. SameRange-cons m a b n (same e) ((memcmp_zero_iff (a + 1) (b + 1) n).0 z),
      λ r. (memcmp_zero_iff (a + 1) (b + 1) n).1 (shifted r),
    )
    | inr e ↦ rw e (
      λ z. absurd (byte_difference_nonzero (m a) (m b) (bytes a) (bytes b) (differ e) z),
      λ r. absurd (differ e (first r)),
    )
  ]
    where
      same : (m a == m b) ≡ true → m a ≡ m b
      same e = ground arith

      differ : (m a == m b) ≡ false → m a ≢ m b
      differ e = ground arith

      first : SameRange m a b (suc n) → m a ≡ m b
      first r = ap m (omega arith) ∙ r 0 (omega arith) ∙ ap m (omega arith)

      shifted : SameRange m a b (suc n) → SameRange m (a + 1) (b + 1) n
      shifted r i l = ap m (omega arith) ∙ r (suc i) (omega arith) ∙ ap m (omega arith)

  -- `strncmp` of bytes gives 0 exactly when the strings agree on `n` bytes or up to their NUL.
  pub strncmp_zero_iff : (a b n : ℕ) → (strncmp m a b n ≡ 0) ↔ SameString m a b n
  unfolding strncmp
  strncmp_zero_iff a b zero = (λ e i l. absurd (omega arith), λ r. refl)
  strncmp_zero_iff a b (suc n) =
      choose (m a == 0) (m a == m b) refl refl (strncmp_zero_iff (a + 1) (b + 1) n)
    where
      first : SameString m a b (suc n) → m a ≡ m b
      first r =
          ap m (omega arith) ∙ r 0 (omega arith) (λ j h. absurd (omega arith)) ∙ ap m (omega arith)

      ended : (m a == 0) ≡ true → m a ≡ 0
      ended e = ground arith

      going : (m a == 0) ≡ false → m a ≢ 0
      going e = ground arith

      same : (m a == m b) ≡ true → m a ≡ m b
      same e = ground arith

      differ : (m a == m b) ≡ false → m a ≢ m b
      differ e = ground arith

      zero_difference : m a ≡ m b → byte_difference (m a) (m b) ≡ 0
      zero_difference e = rw e (omega (arith, bytes b))

      before :
          m a ≢ 0
          → (i : ℕ) → ((j : ℕ) → j < i → m (a + 1 + j) ≢ 0)
          → (j : ℕ) → j < suc i
          → m (a + j) ≢ 0
      before e i h zero l z = e (ap m (omega arith) ∙ z)
      before e i h (suc j) l z = h j (omega arith) (ap m (omega arith) ∙ z)

      shifted : m a ≢ 0 → SameString m a b (suc n) → SameString m (a + 1) (b + 1) n
      shifted e r i l h =
          ap m (omega arith) ∙ r (suc i) (omega arith) (before e i h) ∙ ap m (omega arith)

      choose :
          (z s : Bool)
          → (m a == 0) ≡ z
          → (m a == m b) ≡ s
          → (strncmp m (a + 1) (b + 1) n ≡ 0) ↔ SameString m (a + 1) (b + 1) n
          → ((if not z && s then strncmp m (a + 1) (b + 1) n else byte_difference (m a) (m b)) ≡ 0)
            ↔ SameString m a b (suc n)
      choose false true e d c =
          (λ x. SameString-cons m a b n (same d) (λ y. c.0 x), λ r. c.1 (shifted (going e) r))
      choose true true e d c = (
        λ x. SameString-cons m a b n (same d) (λ y. absurd (y (ended e))),
        λ r. zero_difference (same d),
      )
      choose true false e d c = (
        λ x. absurd (byte_difference_nonzero (m a) (m b) (bytes a) (bytes b) (differ d) x),
        λ r. absurd (differ d (first r)),
      )
      choose false false e d c = (
        λ x. absurd (byte_difference_nonzero (m a) (m b) (bytes a) (bytes b) (differ d) x),
        λ r. absurd (differ d (first r)),
      )

strlen_from-some :
    (m : ℕ → ℕ) (s k i fuel : ℕ)
    → ((j : ℕ) → i ≤ j → j < i + k → m (s + j) ≢ 0)
    → m (s + (i + k)) ≡ 0
    → k < fuel
    → strlen_from fuel m s i ≡ some (i + k)
unfolding strlen_from
strlen_from-some m s k i zero h z l = absurd (omega arith)
strlen_from-some m s zero i (suc fuel) h z l =
    rw (test (ap m (omega arith) ∙ z)) (ap some (omega arith))
  where
    test : m (s + i) ≡ 0 → (m (s + i) == 0) ≡ true
    test e = ground arith
strlen_from-some m s (suc k) i (suc fuel) h z l = rw (test (h i (omega arith) (omega arith))) (
    strlen_from-some m s k (i + 1) fuel (λ j a b. h j (omega arith) (omega arith))
      (ap m (omega arith) ∙ z) (omega arith)
    ∙ ap some (omega arith))
  where
    test : m (s + i) ≢ 0 → (m (s + i) == 0) ≡ false
    test e = ground arith

-- `strlen` ends on a string with its first NUL at `k`, in `k + 1` rounds, and gives `k`.
pub strlen-some :
    (m : ℕ → ℕ) (s k : ℕ)
    → ((j : ℕ) → j < k → m (s + j) ≢ 0)
    → m (s + k) ≡ 0
    → strlen (k + 1) m s ≡ some k
strlen-some m s k h z =
    strlen_from-some m s k 0 (k + 1) (λ j a b. h j (omega arith)) (ap m (omega arith) ∙ z)
      (omega arith)
    ∙ ap some (omega arith)
