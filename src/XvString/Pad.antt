-- ===== src/XvString/Pad.antt =====
-- What `strncpy` copies.
use mephi_os_labs.Prelude.{
  ℕ, zero, suc, ◌+◌, ◌≤◌, ◌<◌, ◌≡◌, refl, ap, sym, ◌∙◌, ◌≢◌, ◌⊎◌, inl, inr, Bool, true, false,
  arith, ◌==◌, if◌then◌else◌,
}
use mephi_os_labs.XvString.{store_byte, pad, strncpy}
use mephi_os_labs.XvString.Move.{store_byte-same, store_byte-other}
use mephi_os_labs.XvString.Copy.{Apart}

-- The first `size` of the `n` bytes are those of the string at `t` in front of its NUL, the others 0.
pub record PaddedString (m : ℕ → ℕ) (s t n : ℕ) (r : ℕ → ℕ) : Type 0 where
  pub size : ℕ
  pub fits : size ≤ n
  pub inside : (i : ℕ) → i < size → r (s + i) ≡ m (t + i)
  pub nonzero : (i : ℕ) → i < size → m (t + i) ≢ 0
  pub zeros : (i : ℕ) → size ≤ i → i < n → r (s + i) ≡ 0
  pub whole : (size ≡ n) ⊎ (m (t + size) ≡ 0)
  pub outside : (q : ℕ) → (q < s) ⊎ (s + n ≤ q) → r q ≡ m q

pad-outside : (m : ℕ → ℕ) (s n q : ℕ) → (q < s) ⊎ (s + n ≤ q) → pad m s n q ≡ m q
unfolding pad
pad-outside m s zero q h = refl
pad-outside m s (suc n) q h =
    pad-outside (store_byte m s 0) (s + 1) n q (ground arith)
    ∙ store_byte-other m s 0 q (ground arith)

pad-inside : (m : ℕ → ℕ) (s n i : ℕ) → i < n → pad m s n (s + i) ≡ 0
unfolding pad
pad-inside m s zero i h = absurd (omega arith)
pad-inside m s (suc n) zero h =
    pad-outside (store_byte m s 0) (s + 1) n (s + 0) (inl (omega arith))
    ∙ store_byte-same m s 0 (s + 0) (omega arith)
pad-inside m s (suc n) (suc i) h =
    ap (pad (store_byte m s 0) (s + 1) n) (omega arith)
    ∙ pad-inside (store_byte m s 0) (s + 1) n i (omega arith)

strncpy-outside : (m : ℕ → ℕ) (s t n q : ℕ) → (q < s) ⊎ (s + n ≤ q) → strncpy m s t n q ≡ m q
unfolding strncpy
strncpy-outside m s t zero q h = refl
strncpy-outside m s t (suc n) q h =
    choose (m t == 0) (strncpy-outside (store_byte m s (m t)) (s + 1) (t + 1) n q (ground arith))
  where
    here : store_byte m s (m t) q ≡ m q
    here = store_byte-other m s (m t) q (ground arith)

    choose :
        (b : Bool)
        → strncpy (store_byte m s (m t)) (s + 1) (t + 1) n q ≡ store_byte m s (m t) q
        → (if b
              then pad (store_byte m s (m t)) (s + 1) n
              else strncpy (store_byte m s (m t)) (s + 1) (t + 1) n)
            q
          ≡ m q
    choose true r = pad-outside (store_byte m s (m t)) (s + 1) n q (ground arith) ∙ here
    choose false r = r ∙ here

PaddedString-here :
    (m : ℕ → ℕ) (s t n : ℕ)
    → m t ≡ 0
    → PaddedString m s t (suc n) (pad (store_byte m s (m t)) (s + 1) n)
PaddedString-here m s t n e = record {
  size = 0;
  fits = omega arith;
  inside = λ i l. absurd (omega arith);
  nonzero = λ i l. absurd (omega arith);
  zeros = zeros;
  whole = inr (ap m (omega arith) ∙ e);
  outside = λ q h.
      pad-outside (store_byte m s (m t)) (s + 1) n q (ground arith)
      ∙ store_byte-other m s (m t) q (ground arith);
}
  where
    zeros : (i : ℕ) → 0 ≤ i → i < suc n → pad (store_byte m s (m t)) (s + 1) n (s + i) ≡ 0
    zeros zero l h =
        pad-outside (store_byte m s (m t)) (s + 1) n (s + 0) (inl (omega arith))
        ∙ store_byte-same m s (m t) (s + 0) (omega arith)
        ∙ e
    zeros (suc i) l h =
        ap (pad (store_byte m s (m t)) (s + 1) n) (omega arith)
        ∙ pad-inside (store_byte m s (m t)) (s + 1) n i (omega arith)

PaddedString-cons :
    (m r : ℕ → ℕ) (s t n : ℕ)
    → m t ≢ 0
    → Apart s t (suc n)
    → r s ≡ m t
    → PaddedString (store_byte m s (m t)) (s + 1) (t + 1) n r
    → PaddedString m s t (suc n) r
PaddedString-cons m r s t n ne a here c = record {
  size = suc c.size;
  fits = below c.fits;
  inside = inside;
  nonzero = nonzero;
  zeros = zeros;
  whole = whole c.whole;
  outside = λ q h. c.outside q (ground arith) ∙ store_byte-other m s (m t) q (ground arith);
}
  where
    below : c.size ≤ n → suc c.size ≤ suc n
    below l = omega arith

    source : (i : ℕ) → i < n → store_byte m s (m t) (t + 1 + i) ≡ m (t + suc i)
    source i l = store_byte-other m s (m t) (t + 1 + i) (ground arith) ∙ ap m (omega arith)

    within : (i : ℕ) → i < c.size → c.size ≤ n → i < n
    within i l f = omega arith

    inside : (i : ℕ) → i < suc c.size → r (s + i) ≡ m (t + i)
    inside zero l = ap r (omega arith) ∙ here ∙ ap m (omega arith)
    inside (suc i) l =
        ap r (omega arith) ∙ c.inside i (omega arith) ∙ source i (within i (omega arith) c.fits)

    nonzero : (i : ℕ) → i < suc c.size → m (t + i) ≢ 0
    nonzero zero l e = ne (ap m (omega arith) ∙ e)
    nonzero (suc i) l e = c.nonzero i (omega arith) (source i (within i (omega arith) c.fits) ∙ e)

    zeros : (i : ℕ) → suc c.size ≤ i → i < suc n → r (s + i) ≡ 0
    zeros zero l h = absurd (omega arith)
    zeros (suc i) l h = ap r (omega arith) ∙ c.zeros i (omega arith) (omega arith)

    less_or_same : c.size ≤ n → (c.size < n) ⊎ (c.size ≡ n)
    less_or_same l = ground arith

    at_end :
        (c.size < n) ⊎ (c.size ≡ n)
        → store_byte m s (m t) (t + 1 + c.size) ≡ 0
        → (suc c.size ≡ suc n) ⊎ (m (t + suc c.size) ≡ 0)
    at_end (inl l) e = inr (sym (source c.size l) ∙ e)
    at_end (inr l) e = inl (ap suc l)

    whole :
        (c.size ≡ n) ⊎ (store_byte m s (m t) (t + 1 + c.size) ≡ 0)
        → (suc c.size ≡ suc n) ⊎ (m (t + suc c.size) ≡ 0)
    whole (inl e) = inl (ap suc e)
    whole (inr e) = at_end (less_or_same c.fits) e

-- `strncpy` into `n` bytes that do not overlap the source copies the string up to its NUL, or its first
-- `n` bytes with no NUL behind them, and sets the rest of the `n` bytes to 0; it writes nothing else.
pub strncpy-PaddedString :
    (m : ℕ → ℕ) (s t n : ℕ) → Apart s t n → PaddedString m s t n (strncpy m s t n)
unfolding strncpy
strncpy-PaddedString m s t zero a = record {
  size = 0;
  fits = omega arith;
  inside = λ i l. absurd (omega arith);
  nonzero = λ i l. absurd (omega arith);
  zeros = λ i l h. absurd (omega arith);
  whole = inl refl;
  outside = λ q h. refl;
}
strncpy-PaddedString m s t (suc n) a =
    choose (m t == 0) refl
      (strncpy-PaddedString (store_byte m s (m t)) (s + 1) (t + 1) n (ground arith))
  where
    m1 : ℕ → ℕ
    m1 = store_byte m s (m t)

    zeroed : (m t == 0) ≡ true → m t ≡ 0
    zeroed e = ground arith

    kept : (m t == 0) ≡ false → m t ≢ 0
    kept e = ground arith

    here : strncpy m1 (s + 1) (t + 1) n s ≡ m t
    here =
        strncpy-outside m1 (s + 1) (t + 1) n s (inl (omega arith))
        ∙ store_byte-same m s (m t) s refl

    choose :
        (b : Bool)
        → (m t == 0) ≡ b
        → PaddedString m1 (s + 1) (t + 1) n (strncpy m1 (s + 1) (t + 1) n)
        → PaddedString m s t (suc n) (if b then pad m1 (s + 1) n else strncpy m1 (s + 1) (t + 1) n)
    choose true e r = PaddedString-here m s t n (zeroed e)
    choose false e r = PaddedString-cons m (strncpy m1 (s + 1) (t + 1) n) s t n (kept e) a here r
