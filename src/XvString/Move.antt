-- ===== src/XvString/Move.antt =====
-- What `memmove` leaves in the memory.
use mephi_os_labs.Prelude.{
  ℕ, zero, suc, ◌+◌, ◌≤◌, ◌<◌, ◌≡◌, refl, ap, sym, ◌∙◌, subst, ◌≢◌, ◌⊎◌, inl, inr, true, false,
  ◌&&◌, arith, ltb, if◌then◌else◌, Bool-cases,
}
use mephi_os_labs.XvString.{store_byte, copy_up, copy_down, memmove}

-- `n` bytes from `s` on have come to `d`, and all others are as they were.
pub record Moved (m : ℕ → ℕ) (d s n : ℕ) (r : ℕ → ℕ) : Type 0 where
  pub inside : (i : ℕ) → i < n → r (d + i) ≡ m (s + i)
  pub outside : (q : ℕ) → (q < d) ⊎ (d + n ≤ q) → r q ≡ m q

pub store_byte-same : (m : ℕ → ℕ) (a v q : ℕ) → q ≡ a → store_byte m a v q ≡ v
store_byte-same m a v q h = ground arith

pub store_byte-other : (m : ℕ → ℕ) (a v q : ℕ) → q ≢ a → store_byte m a v q ≡ m q
store_byte-other m a v q h = ground arith

copy_up-outside : (m : ℕ → ℕ) (d s n q : ℕ) → (q < d) ⊎ (d + n ≤ q) → copy_up m d s n q ≡ m q
unfolding copy_up
copy_up-outside m d s zero q h = refl
copy_up-outside m d s (suc n) q h =
    copy_up-outside (store_byte m d (m s)) (d + 1) (s + 1) n q (ground arith)
    ∙ store_byte-other m d (m s) q (ground arith)

copy_down-outside : (m : ℕ → ℕ) (d s n q : ℕ) → (q < d) ⊎ (d + n ≤ q) → copy_down m d s n q ≡ m q
unfolding copy_down
copy_down-outside m d s zero q h = refl
copy_down-outside m d s (suc n) q h =
    copy_down-outside (store_byte m (d + n) (m (s + n))) d s n q (ground arith)
    ∙ store_byte-other m (d + n) (m (s + n)) q (ground arith)

copy_up-inside :
    (m : ℕ → ℕ) (d s n i : ℕ) → (d ≤ s) ⊎ (s + n ≤ d) → i < n → copy_up m d s n (d + i) ≡ m (s + i)
unfolding copy_up
copy_up-inside m d s zero i h hi = absurd (omega arith)
copy_up-inside m d s (suc n) zero h hi =
    copy_up-outside (store_byte m d (m s)) (d + 1) (s + 1) n (d + 0) (inl (omega arith))
    ∙ store_byte-same m d (m s) (d + 0) (omega arith)
    ∙ ap m (omega arith)
copy_up-inside m d s (suc n) (suc j) h hi =
    let m1 = store_byte m d (m s) in
    let to : d + suc j ≡ d + 1 + j = omega arith in
    let from : s + 1 + j ≡ s + suc j = omega arith in
    ap (copy_up m1 (d + 1) (s + 1) n) to
    ∙ copy_up-inside m1 (d + 1) (s + 1) n j (ground arith) (omega arith)
    ∙ store_byte-other m d (m s) (s + 1 + j) (ground arith)
    ∙ ap m from

below_or_last : (i n : ℕ) → i < suc n → (i < n) ⊎ (i ≡ n)
below_or_last i n h = ground arith

copy_down-inside : (m : ℕ → ℕ) (d s n i : ℕ) → s < d → i < n → copy_down m d s n (d + i) ≡ m (s + i)
unfolding copy_down
copy_down-inside m d s zero i h hi = absurd (omega arith)
copy_down-inside m d s (suc n) i h hi =
    let m1 = store_byte m (d + n) (m (s + n)) in
    elim (below_or_last i n hi) [
      | inl lt ↦
          copy_down-inside m1 d s n i h lt
          ∙ store_byte-other m (d + n) (m (s + n)) (s + i) (λ e. omega arith)
      | inr e ↦
          copy_down-outside m1 d s n (d + i) (inr (omega arith))
          ∙ store_byte-same m (d + n) (m (s + n)) (d + i) (omega arith)
          ∙ ap (λ j. m (s + j)) (sym e)
    ]

up_test : (s d n : ℕ) → (ltb s d && ltb d (s + n)) ≡ false → (d ≤ s) ⊎ (s + n ≤ d)
up_test s d n h = ground arith

down_test : (s d n : ℕ) → (ltb s d && ltb d (s + n)) ≡ true → s < d
down_test s d n h = ground arith

-- `memmove` brings the bytes of the source, as they were before the call, to the destination, and leaves
-- all other bytes alone, however the two ranges overlap.
pub memmove-Moved : (m : ℕ → ℕ) (d s n : ℕ) → Moved m d s n (memmove m d s n)
unfolding memmove
memmove-Moved m d s n = elim (Bool-cases (ltb s d && ltb d (s + n))) [
  | inl e ↦
      subst (λ b. Moved m d s n (if b then copy_down m d s n else copy_up m d s n)) (sym e)
        (record {
          inside = λ i hi. copy_down-inside m d s n i (down_test s d n e) hi;
          outside = λ q h. copy_down-outside m d s n q h;
        })
  | inr e ↦
      subst (λ b. Moved m d s n (if b then copy_down m d s n else copy_up m d s n)) (sym e)
        (record {
          inside = λ i hi. copy_up-inside m d s n i (up_test s d n e) hi;
          outside = λ q h. copy_up-outside m d s n q h;
        })
]
