-- ===== src/XvString/Fill.antt =====
-- What `memset` leaves in the memory.
use mephi_os_labs.Prelude.{
  ℕ, zero, suc, ◌+◌, ◌*◌, ◌/◌, ◌%◌, ◌<◌, ◌≡◌, refl, ap, ◌∙◌, fun_ext, Bool, true, false, ◌&&◌,
  arith, ltb, leb, ◌==◌, if◌then◌else◌,
}
use mephi_os_labs.XvString.{store_byte, stosb, store_word, stosl, repeated, memset}

-- A byte of each range, written whole.
abbrev pub filled : (ℕ → ℕ) → ℕ → ℕ → ℕ → ℕ → ℕ
filled m dst c n q = if leb dst q && ltb q (dst + n) then c else m q

stosb-filled : (m : ℕ → ℕ) (a v n q : ℕ) → stosb m a v n q ≡ filled m a (v % 256) n q
unfolding stosb
stosb-filled m a v zero q = ground arith
stosb-filled m a v (suc n) q =
    stosb-filled (store_byte m a (v % 256)) (a + 1) v n q ∙ step (v % 256)
  where
    step : (c : ℕ) → filled (store_byte m a c) (a + 1) c n q ≡ filled m a c (suc n) q
    step c = ground arith

repeated_bytes :
    (c : ℕ)
    → c < 256
    → (repeated c % 256 ≡ c)
      × (repeated c / 256 % 256 ≡ c)
      × (repeated c / 65536 % 256 ≡ c)
      × (repeated c / 16777216 % 256 ≡ c)
repeated_bytes c h = (omega arith, omega arith, omega arith, omega arith)

four_bytes :
    (m : ℕ → ℕ) (a c q : ℕ)
    → store_byte (store_byte (store_byte (store_byte m a c) (a + 1) c) (a + 2) c) (a + 3) c q
      ≡ filled m a c 4 q
four_bytes m a c q = ground arith

store_word-filled :
    (m : ℕ → ℕ) (a c q : ℕ) → c < 256 → store_word m a (repeated c) q ≡ filled m a c 4 q
store_word-filled m a c q h =
    let b = repeated_bytes c h in rw b.0 (rw b.1 (rw b.2 (rw b.3 (four_bytes m a c q))))

stosl-filled :
    (m : ℕ → ℕ) (a c n q : ℕ) → c < 256 → stosl m a (repeated c) n q ≡ filled m a c (4 * n) q
unfolding stosl
stosl-filled m a c zero q h = ground arith
stosl-filled m a c (suc n) q h =
    stosl-filled (store_word m a (repeated c)) (a + 4) c n q h
    ∙ ap (λ z. if leb (a + 4) q && ltb q (a + 4 + 4 * n) then c else z)
        (store_word-filled m a c q h)
    ∙ step
  where
    step : filled (filled m a c 4) (a + 4) c (4 * n) q ≡ filled m a c (4 * suc n) q
    step = ground arith

-- `memset` sets the `n` bytes from `dst` on to the low byte of `c` and changes no other, whether it
-- stores words or bytes.
pub memset-filled : (m : ℕ → ℕ) (dst c n : ℕ) → memset m dst c n ≡ filled m dst (c % 256) n
unfolding memset
memset-filled m dst c n = fun_ext (λ q. choose q (dst % 4 == 0 && n % 4 == 0) refl)
  where
    quarters : (dst % 4 == 0 && n % 4 == 0) ≡ true → 4 * (n / 4) ≡ n
    quarters e = ground arith

    byte : c % 256 < 256
    byte = omega arith

    choose :
        (q : ℕ) (b : Bool)
        → (dst % 4 == 0 && n % 4 == 0) ≡ b
        → (if b then stosl m dst (repeated (c % 256)) (n / 4) else stosb m dst c n) q
          ≡ filled m dst (c % 256) n q
    choose q true e =
        stosl-filled m dst (c % 256) (n / 4) q byte
        ∙ ap (λ z. filled m dst (c % 256) z q) (quarters e)
    choose q false e = stosb-filled m dst c n q
