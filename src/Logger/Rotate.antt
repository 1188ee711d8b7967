-- ===== src/Logger/Rotate.antt =====
-- `rotate` moves the file of every name to the next one.
use mephi_os_labs.Prelude.{
  ℕ, zero, suc, ◌+◌, ◌≤◌, ◌<◌, ◌≡◌, refl, ap, sym, ◌∙◌, subst, ◌⊎◌, inl, inr, none, some, List,
  arith, get_elem?,
}
use mephi_os_labs.Logger.{Line, Files, IsFiles, shift, rotate}

-- The file of each of the newest names is the chunk of lines at that place of the list.
abbrev pub Holds : {F H : Type 0} → Files F H → F → List (List Line) → Type 0
Holds fs f cs = (j : ℕ) (c : List Line) → get_elem? cs j ≡ some c → fs.read f j ≡ some c

-- The last of a range, or below it.
below_or_last : (i j : ℕ) → j ≤ suc i → (j ≤ i) ⊎ (j ≡ i + 1)
below_or_last i j h = ground arith

zero_or_above : (j : ℕ) → (j ≡ 0) ⊎ (1 ≤ j)
zero_or_above j = ground arith

-- The names from 1 up to `n` have the files that `g` gives.
abbrev pub Covers : {F H : Type 0} → Files F H → F → (ℕ → List Line) → ℕ → Type 0
Covers fs f g n = (j : ℕ) → 1 ≤ j → j ≤ n → fs.read f j ≡ some (g j)

module _ {F H : Type 0} (fs : Files F H) (laws : IsFiles fs) where
  step-Covers :
      (i : ℕ) (f : F) (g : ℕ → List Line)
      → Covers fs f g (suc i)
      → Covers fs (fs.rename (i + 1) (i + 2) f) g i
  step-Covers i f g h j h1 hj =
      laws.not_renamed f {a = i + 1} {b = i + 2} {q = j} (λ e. omega arith) (λ e. omega arith)
      ∙ h j h1 (omega arith)

  -- The loop leaves the log file and the names above its reach alone.
  pub shift-other :
      (n : ℕ) (f : F) (q : ℕ) → (q ≡ 0) ⊎ (n + 1 < q) → fs.read (shift fs n f) q ≡ fs.read f q
  unfolding shift
  shift-other zero f q h = refl
  shift-other (suc i) f q h =
      shift-other i (fs.rename (i + 1) (i + 2) f) q (ground arith)
      ∙ laws.not_renamed f {a = i + 1} {b = i + 2} {q = q} (ground arith) (ground arith)

  -- It moves each archive up by one.
  pub shift-moved :
      (n : ℕ) (f : F) (g : ℕ → List Line)
      → Covers fs f g n
      → (j : ℕ) → 1 ≤ j
      → j ≤ n
      → fs.read (shift fs n f) (j + 1) ≡ some (g j)
  unfolding shift
  shift-moved zero f g h j h1 hj = ground arith
  shift-moved (suc i) f g h j h1 hj =
      let f1 = fs.rename (i + 1) (i + 2) f in
      let last : fs.read f (i + 1) ≡ some (g (i + 1)) = h (i + 1) (omega arith) (omega arith) in
      let two : i + 1 + 1 ≡ i + 2 = omega arith in
      elim (below_or_last i j hj) [
        | inl le ↦ shift-moved i f1 g (step-Covers i f g h) j h1 le
        | inr e ↦
            subst (λ k. fs.read (shift fs i f1) (k + 1) ≡ some (g k)) (sym e)
              (ap (fs.read (shift fs i f1)) two
                ∙ shift-other i f1 (i + 2) (inr (omega arith))
                ∙ laws.renamed f {a = i + 1} {b = i + 2} last (λ q. omega arith))
      ]

  -- `rotate` with `max_idx` at the number of the archives moves the log file and each of them up by
  -- one; no file has the log's name any more, and files above stay.
  pub rotate-moved :
      (n : ℕ) (f : F) (g : ℕ → List Line)
      → Covers fs f g n
      → fs.read f 0 ≡ some (g 0)
      → ((j : ℕ) → j ≤ n → fs.read (rotate fs n f) (j + 1) ≡ some (g j))
        × (fs.read (rotate fs n f) 0 ≡ none)
        × ((q : ℕ) → n + 1 < q → fs.read (rotate fs n f) q ≡ fs.read f q)
  unfolding rotate
  rotate-moved n f g h h0 =
      let f1 = shift fs n f in
      let base : fs.read f1 0 ≡ some (g 0) = shift-other n f 0 (inl refl) ∙ h0 in
      (
        λ j hj. elim (zero_or_above j) [
          | inl e ↦
              subst (λ k. fs.read (fs.rename 0 1 f1) (k + 1) ≡ some (g k)) (sym e)
                (laws.renamed f1 {a = 0} {b = 1} base (λ q. omega arith))
          | inr above ↦
              laws.not_renamed f1 {a = 0} {b = 1} {q = j + 1} (λ q. omega arith) (λ q. omega arith)
              ∙ shift-moved n f g h j above hj
        ],
        laws.gone f1 {a = 0} {b = 1} base (λ q. omega arith),
        λ q hq.
            laws.not_renamed f1 {a = 0} {b = 1} {q = q} (λ e. omega arith) (λ e. omega arith)
            ∙ shift-other n f q (inr hq),
      )
