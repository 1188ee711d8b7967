-- ===== src/XvProc/Scan.antt =====
-- What the loops of proc.c find and change.
use mephi_os_labs.Prelude.{
  ℕ, zero, suc, ◌+◌, ◌≤◌, ◌<◌, ◌≡◌, refl, ap, sym, ◌∙◌, subst, ◌≢◌, ◌⊎◌, inl, inr, Bool, true,
  false, none, some, arith, ◌==◌, if◌then◌else◌, Bool-cases, ==_iff,
}
use mathlib.Core.Option.{none-ne-some, some-injective}
use mephi_os_labs.XvProc.{Chan, Proc, Table, nproc, put, for_each, find_first, woken, wakeup1}

-- A process that is found has the property and is in the range.
pub find_first-some :
    (f : ℕ → Bool) (n i : ℕ) {k : ℕ}
    → find_first f n i ≡ some k
    → (f k ≡ true) × (i ≤ k) × (k < i + n)
unfolding find_first
find_first-some f zero i h = ground arith
find_first-some f (suc n) i {k = k} h = elim (Bool-cases (f i)) [
  | inl e ↦
      let s : i ≡ k =
        some-injective i k (sym (ap (λ b. if b then some i else find_first f n (i + 1)) e) ∙ h) in
      (subst (λ x. f x ≡ true) s e, omega arith, omega arith)
  | inr e ↦
      let r =
        find_first-some f n (i + 1)
          (sym (ap (λ b. if b then some i else find_first f n (i + 1)) e) ∙ h) in
      (r.0, omega (arith, r.1), omega (arith, r.2))
]

-- Where none is found, none in the range has it.
pub find_first-none :
    (f : ℕ → Bool) (n i k : ℕ) → find_first f n i ≡ none → i ≤ k → k < i + n → f k ≡ false
unfolding find_first
find_first-none f zero i k h h1 h2 = absurd (omega arith)
find_first-none f (suc n) i k h h1 h2 = elim (Bool-cases (f i)) [
  | inl e ↦
      absurd
        (none-ne-some i (sym (sym (ap (λ b. if b then some i else find_first f n (i + 1)) e) ∙ h)))
  | inr e ↦ elim (here_or_later i k h1) [
    | inl s ↦ subst (λ x. f x ≡ false) s e
    | inr l ↦
        find_first-none f n (i + 1) k
          (sym (ap (λ b. if b then some i else find_first f n (i + 1)) e) ∙ h) l (omega arith)
  ]
]
  where
    here_or_later : (i k : ℕ) → i ≤ k → (i ≡ k) ⊎ (i + 1 ≤ k)
    here_or_later i k h = ground arith

pub put-same : (t : Table) (i q : ℕ) (p : Proc) → q ≡ i → put t i p q ≡ p
put-same t i q p h = ap (λ b. if b then p else t q) ((==_iff q i).1 h)

pub put-other : (t : Table) (i q : ℕ) (p : Proc) → q ≢ i → put t i p q ≡ t q
put-other t i q p h = ap (λ b. if b then p else t q) (not_equal q i h)
  where
    not_equal : (q i : ℕ) → q ≢ i → (q == i) ≡ false
    not_equal q i h = ground arith

wake_loop : (n : ℕ) (chan : Chan) (t : Table) → Table
wake_loop n chan t = for_each n (λ i t. put t i (woken chan (t i))) t

wake_loop-at :
    (n : ℕ) (chan : Chan) (t : Table) (q : ℕ)
    → (q < n → wake_loop n chan t q ≡ woken chan (t q)) × (n ≤ q → wake_loop n chan t q ≡ t q)
unfolding wake_loop for_each
wake_loop-at zero chan t q = (λ h. absurd (omega arith), λ h. refl)
wake_loop-at (suc n) chan t q =
    let t1 = wake_loop n chan t in
    let ih = wake_loop-at n chan t in
    (
      λ h. elim (last_or_below n q h) [
        | inl e ↦
            put-same t1 n q (woken chan (t1 n)) e
            ∙ ap (woken chan) ((ih n).1 (omega arith))
            ∙ ap (λ x. woken chan (t x)) (sym e)
        | inr l ↦ put-other t1 n q (woken chan (t1 n)) (λ e. omega arith) ∙ (ih q).0 l
      ],
      λ h. put-other t1 n q (woken chan (t1 n)) (λ e. omega arith) ∙ (ih q).1 (omega arith),
    )
  where
    last_or_below : (n q : ℕ) → q < suc n → (q ≡ n) ⊎ (q < n)
    last_or_below n q h = ground arith

-- `wakeup1` changes each process of the table for itself.
pub wakeup1-at : (chan : Chan) (t : Table) (q : ℕ) → q < nproc → wakeup1 chan t q ≡ woken chan (t q)
unfolding wakeup1 wake_loop
wakeup1-at chan t q h = (wake_loop-at nproc chan t q).0 h
