-- ===== src/Backtrace/Walk.antt =====
-- Which addresses `Backtrace` writes.
use mephi_os_labs.Prelude.{
  ℕ, zero, suc, ◌+◌, ◌≤◌, ◌<◌, ◌≡◌, refl, ap, sym, ◌∙◌, ◌≢◌, ◌⊎◌, inl, inr, Bool, true, false, ◌||◌,
  Option, some, List, [], ◌∷◌, arith, if◌then◌else◌, Bool-cases, length, take,
}
use mephi_os_labs.Backtrace.{walk, backtrace}

-- The return addresses of the frames from `rbp` on.
pub data Frames (load : ℕ → Option ℕ) : ℕ → List ℕ → Type 0 where
  bottom : {rbp : ℕ} → Frames load rbp []
  frame :
      {rbp up a : ℕ} {rest : List ℕ}
      → load (rbp + 8) ≡ some a
      → load rbp ≡ some up
      → Frames load up rest
      → Frames load rbp (a ∷ rest)

-- The addresses up to the first one in `main`.
unfoldable pub up_to_main : (ℕ → Bool) → List ℕ → List ℕ
up_to_main is_main [] = []
up_to_main is_main (a ∷ rest) =
    let more = up_to_main is_main rest in if is_main a then a ∷ [] else a ∷ more

unfoldable pub has_main : (ℕ → Bool) → List ℕ → Bool
has_main is_main [] = false
has_main is_main (a ∷ rest) = is_main a || has_main is_main rest

module _ (load : ℕ → Option ℕ) (is_main : ℕ → Bool) where
  walk-up_to_main :
      (n rbp : ℕ) (trace : List ℕ)
      → Frames load rbp trace
      → (n ≤ length trace) ⊎ (has_main is_main trace ≡ true)
      → walk load is_main n rbp ≡ some (up_to_main is_main (take n trace))
  unfolding walk up_to_main has_main
  walk-up_to_main zero rbp trace f h = refl
  walk-up_to_main (suc n) rbp _ bottom (inl h) = absurd (omega arith)
  walk-up_to_main (suc n) rbp _ bottom (inr h) = absurd (flag h)
    where
      flag : false ≢ true
      flag e = ground arith
  walk-up_to_main (suc n) rbp _ (frame {up = up} {a = a} {rest = rest} l u f) h =
      rw l (elim (Bool-cases (is_main a)) [
        | inl e ↦ rw e
        | inr e ↦ rw e (rw u (rw (walk-up_to_main n up rest f (further e h)) refl))
      ])
    where
      further :
          is_main a ≡ false
          → (suc n ≤ suc (length rest)) ⊎ ((is_main a || has_main is_main rest) ≡ true)
          → (n ≤ length rest) ⊎ (has_main is_main rest ≡ true)
      further e (inl x) = inl (omega arith)
      further e (inr x) = inr (sym (ap (λ b. b || has_main is_main rest) e) ∙ x)

  -- `Backtrace` with a limit of at least 0, on frames that are deeper than the limit or reach `main`,
  -- writes their return addresses in order up to the first one in `main`, but at most `limit + 1`.
  pub backtrace-up_to_main :
      (limit rbp : ℕ) (trace : List ℕ)
      → Frames load rbp trace
      → (limit < length trace) ⊎ (has_main is_main trace ≡ true)
      → backtrace load is_main limit rbp ≡ some (up_to_main is_main (take (limit + 1) trace))
  unfolding backtrace
  backtrace-up_to_main limit rbp trace f (inl h) =
      walk-up_to_main (limit + 1) rbp trace f (inl (omega arith))
  backtrace-up_to_main limit rbp trace f (inr h) = walk-up_to_main (limit + 1) rbp trace f (inr h)

length-up_to_main :
    (is_main : ℕ → Bool) (n : ℕ) (trace : List ℕ)
    → n ≤ length trace
    → has_main is_main (take n trace) ≡ false
    → length (up_to_main is_main (take n trace)) ≡ n
unfolding has_main up_to_main
length-up_to_main is_main zero trace l h = refl
length-up_to_main is_main (suc n) [] l h = absurd (omega arith)
length-up_to_main is_main (suc n) (a ∷ rest) l h = elim (Bool-cases (is_main a)) [
  | inl e ↦ absurd (flag (sym (ap (λ b. b || has_main is_main (take n rest)) e) ∙ h))
  | inr e ↦ rw e (
      ap suc (
        length-up_to_main is_main n rest (omega arith)
          (sym (ap (λ b. b || has_main is_main (take n rest)) e) ∙ h)))
]
  where
    flag : true ≢ false
    flag f = ground arith

-- On a stack that is deeper than the limit and has no frame of `main` among the first `limit + 1`,
-- `Backtrace` writes `limit + 1` addresses, one more than the array of `limit` holds.
pub backtrace-overrun :
    (load : ℕ → Option ℕ) (is_main : ℕ → Bool) (limit rbp : ℕ) (trace : List ℕ)
    → Frames load rbp trace
    → limit < length trace
    → has_main is_main (take (limit + 1) trace) ≡ false
    → (out : List ℕ) × (backtrace load is_main limit rbp ≡ some out) × (length out ≡ limit + 1)
backtrace-overrun load is_main limit rbp trace f l h = (
  up_to_main is_main (take (limit + 1) trace),
  backtrace-up_to_main load is_main limit rbp trace f (inl l),
  length-up_to_main is_main (limit + 1) trace (omega arith) h,
)
