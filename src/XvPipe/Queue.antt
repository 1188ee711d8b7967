-- ===== src/XvPipe/Queue.antt =====
-- The pipe as a queue: the bytes between the two counters.
use mephi_os_labs.Prelude.{
  ℕ, zero, suc, ◌+◌, ◌-◌, ◌%◌, ◌^◌, ◌≤◌, ◌<◌, ◌≡◌, refl, ap, sym, ◌∙◌, ◌≢◌, true, false, List, [],
  ◌∷◌, ◌++◌, arith, ◌==◌, length,
}
use mephi_os_labs.XvPipe.{XvPipe, is_full, is_drained, store, put, got}

-- `k` bytes from the counter `i` on.
unfoldable pub slice : (ℕ → ℕ) → ℕ → ℕ → List ℕ
slice bytes i zero = []
slice bytes i (suc k) = bytes (i % 512) ∷ slice bytes ((i + 1) % 2 ^ 32) k

-- How many bytes the pipe holds.
abbrev pub count : XvPipe → ℕ
count p = (p.nwrite + (2 ^ 32 - p.nread)) % 2 ^ 32

-- Its bytes, the oldest first.
abbrev pub queue : XvPipe → List ℕ
queue p = slice p.bytes p.nread (count p)

-- The counters are words, and the bytes fit into the ring.
pub record IsPipe (p : XvPipe) : Type 0 where
  pub nread : p.nread < 2 ^ 32
  pub nwrite : p.nwrite < 2 ^ 32
  pub fits : count p ≤ 512

pub length-slice : (bytes : ℕ → ℕ) (i k : ℕ) → length (slice bytes i k) ≡ k
unfolding slice
length-slice bytes i zero = refl
length-slice bytes i (suc k) = ap suc (length-slice bytes ((i + 1) % 2 ^ 32) k)

store-same : (bytes : ℕ → ℕ) (i q c : ℕ) → q ≡ i → store bytes i c q ≡ c
store-same bytes i q c h = ground arith

store-other : (bytes : ℕ → ℕ) (i q c : ℕ) → q ≢ i → store bytes i c q ≡ bytes q
store-other bytes i q c h = ground arith

other_place : (i k : ℕ) → i < 2 ^ 32 → suc k < 512 → i % 512 ≢ (i + suc k) % 2 ^ 32 % 512
other_place i k hi hk e = omega arith

same_word : (i k : ℕ) → i < 2 ^ 32 → (i + suc k) % 2 ^ 32 ≡ ((i + 1) % 2 ^ 32 + k) % 2 ^ 32
same_word i k hi = omega arith

-- A byte that is stored behind fewer than 512 bytes comes last, and leaves those as they are.
slice-store :
    (bytes : ℕ → ℕ) (i k c : ℕ)
    → i < 2 ^ 32
    → k < 512
    → slice (store bytes ((i + k) % 2 ^ 32 % 512) c) i (suc k) ≡ slice bytes i k ++ c ∷ []
unfolding slice
slice-store bytes i zero c hi hk =
    ap (λ x. x ∷ []) (store-same bytes ((i + 0) % 2 ^ 32 % 512) (i % 512) c (omega arith))
slice-store bytes i (suc k) c hi hk =
    ap (λ x. x ∷ slice (store bytes ((i + suc k) % 2 ^ 32 % 512) c) ((i + 1) % 2 ^ 32) (suc k))
      (store-other bytes ((i + suc k) % 2 ^ 32 % 512) (i % 512) c (other_place i k hi hk))
    ∙ ap (λ w. bytes (i % 512) ∷ slice (store bytes (w % 512) c) ((i + 1) % 2 ^ 32) (suc k))
        (same_word i k hi)
    ∙ ap (◌∷◌ (bytes (i % 512)))
        (slice-store bytes ((i + 1) % 2 ^ 32) k c (omega arith) (omega arith))

below_full :
    (r w : ℕ)
    → r < 2 ^ 32
    → w < 2 ^ 32
    → (w + (2 ^ 32 - r)) % 2 ^ 32 ≤ 512
    → (w == (r + 512) % 2 ^ 32) ≡ false
    → (w + (2 ^ 32 - r)) % 2 ^ 32 < 512
below_full r w hr hw h e = ground arith

-- A byte that is put into a pipe that is not full comes last.
pub queue-put :
    (c : ℕ) (p : XvPipe)
    → IsPipe p
    → is_full p ≡ false
    → (queue (put c p) ≡ queue p ++ c ∷ []) × IsPipe (put c p)
queue-put c p i h =
    let k = count p in
    let hk : k < 512 = below_full p.nread p.nwrite i.nread i.nwrite i.fits h in
    let w : (p.nread + k) % 2 ^ 32 ≡ p.nwrite = omega (arith, i.nread, i.nwrite) in
    let more : count (put c p) ≡ suc k = omega (arith, i.nread, i.nwrite, hk) in
    (
      ap (slice (store p.bytes (p.nwrite % 512) c) p.nread) more
          ∙ ap (λ v. slice (store p.bytes (v % 512) c) p.nread (suc k)) (sym w)
          ∙ slice-store p.bytes p.nread k c i.nread hk,
      record { nread = i.nread; nwrite = omega arith; fits = omega (arith, more, hk) },
    )

some_count :
    (r w : ℕ)
    → r < 2 ^ 32
    → w < 2 ^ 32
    → (r == w) ≡ false
    → (w + (2 ^ 32 - r)) % 2 ^ 32 ≡ suc ((w + (2 ^ 32 - (r + 1) % 2 ^ 32)) % 2 ^ 32)
some_count r w hr hw e = let ne = not_equal r w e in omega arith
  where
    not_equal : (r w : ℕ) → (r == w) ≡ false → r ≢ w
    not_equal r w e h = ground arith

-- The byte that is taken from a pipe that has bytes is the first.
pub queue-got :
    (p : XvPipe)
    → IsPipe p
    → is_drained p ≡ false
    → (queue p ≡ p.bytes (p.nread % 512) ∷ queue (got p)) × IsPipe (got p)
unfolding slice
queue-got p i h =
    let e : count p ≡ suc (count (got p)) = some_count p.nread p.nwrite i.nread i.nwrite h in
    (
      ap (slice p.bytes p.nread) e,
      record { nread = omega arith; nwrite = i.nwrite; fits = omega (arith, e, i.fits) },
    )

-- A pipe that is drained holds nothing, and one that is full 512 bytes.
pub queue-drained : (p : XvPipe) → IsPipe p → is_drained p ≡ true → queue p ≡ []
unfolding slice
queue-drained p i h = ap (slice p.bytes p.nread) (none p.nread p.nwrite i.nread h)
  where
    none : (r w : ℕ) → r < 2 ^ 32 → (r == w) ≡ true → (w + (2 ^ 32 - r)) % 2 ^ 32 ≡ 0
    none r w hr e = ground arith

pub count-full : (p : XvPipe) → IsPipe p → is_full p ≡ true → count p ≡ 512
count-full p i h = full p.nread p.nwrite i.nread h
  where
    full :
        (r w : ℕ)
        → r < 2 ^ 32
        → (w == (r + 512) % 2 ^ 32) ≡ true
        → (w + (2 ^ 32 - r)) % 2 ^ 32 ≡ 512
    full r w hr e = ground arith
