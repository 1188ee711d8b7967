-- ===== src/XvString/Copy.antt =====
-- What the functions on strings copy and compare.
use mephi_os_labs.Prelude.{
  ℕ, zero, suc, ◌+◌, ◌≤◌, ◌<◌, ◌≡◌, refl, ap, sym, ◌∙◌, ◌≢◌, ◌⊎◌, inl, inr, Bool, true, false,
  arith, ◌==◌, if◌then◌else◌,
}
use mephi_os_labs.XvString.{store_byte, copy_string, safestrcpy}
use mephi_os_labs.XvString.Move.{store_byte-same, store_byte-other}

-- The string at `t` has `size` bytes in front of its NUL or of the end of the room, and they have come to
-- `s` with a NUL behind them.
pub record CopiedString (m : ℕ → ℕ) (s t n : ℕ) (r : ℕ → ℕ) : Type 0 where
  pub size : ℕ
  pub fits : size < n
  pub inside : (i : ℕ) → i < size → r (s + i) ≡ m (t + i)
  pub nonzero : (i : ℕ) → i < size → m (t + i) ≢ 0
  pub terminated : r (s + size) ≡ 0
  pub whole : (suc size ≡ n) ⊎ (m (t + size) ≡ 0)
  pub outside : (q : ℕ) → (q < s) ⊎ (s + n ≤ q) → r q ≡ m q

-- The ranges of `n` bytes do not overlap.
abbrev pub Apart : ℕ → ℕ → ℕ → Type 0
Apart s t n = (s + n ≤ t) ⊎ (t + n ≤ s)

copy_string-outside :
    (m : ℕ → ℕ) (s t n q : ℕ) → (q < s) ⊎ (s + suc n ≤ q) → copy_string m s t n q ≡ m q
unfolding copy_string
copy_string-outside m s t zero q h = store_byte-other m s 0 q (ground arith)
copy_string-outside m s t (suc n) q h =
    choose (m t == 0)
      (copy_string-outside (store_byte m s (m t)) (s + 1) (t + 1) n q (ground arith))
  where
    here : store_byte m s (m t) q ≡ m q
    here = store_byte-other m s (m t) q (ground arith)

    choose :
        (b : Bool)
        → copy_string (store_byte m s (m t)) (s + 1) (t + 1) n q ≡ store_byte m s (m t) q
        → (if b
              then store_byte (store_byte m s (m t)) (s + 1) 0
              else copy_string (store_byte m s (m t)) (s + 1) (t + 1) n)
            q
          ≡ m q
    choose true r = store_byte-other (store_byte m s (m t)) (s + 1) 0 q (ground arith) ∙ here
    choose false r = r ∙ here

CopiedString-here :
    (m : ℕ → ℕ) (s t n : ℕ)
    → m t ≡ 0
    → CopiedString m s t (suc (suc n)) (store_byte (store_byte m s (m t)) (s + 1) 0)
CopiedString-here m s t n e = record {
  size = 0;
  fits = omega arith;
  inside = λ i l. absurd (omega arith);
  nonzero = λ i l. absurd (omega arith);
  terminated =
      store_byte-other (store_byte m s (m t)) (s + 1) 0 (s + 0) (omega arith)
      ∙ store_byte-same m s (m t) (s + 0) (omega arith)
      ∙ e;
  whole = inr (ap m (omega arith) ∙ e);
  outside = λ q h.
      store_byte-other (store_byte m s (m t)) (s + 1) 0 q (ground arith)
      ∙ store_byte-other m s (m t) q (ground arith);
}

CopiedString-last : (m : ℕ → ℕ) (s t : ℕ) → CopiedString m s t 1 (store_byte m s 0)
CopiedString-last m s t = record {
  size = 0;
  fits = omega arith;
  inside = λ i l. absurd (omega arith);
  nonzero = λ i l. absurd (omega arith);
  terminated = store_byte-same m s 0 (s + 0) (omega arith);
  whole = inl refl;
  outside = λ q h. store_byte-other m s 0 q (ground arith);
}

CopiedString-cons :
    (m r : ℕ → ℕ) (s t n : ℕ)
    → m t ≢ 0
    → Apart s t (suc n)
    → r s ≡ m t
    → CopiedString (store_byte m s (m t)) (s + 1) (t + 1) n r
    → CopiedString m s t (suc n) r
CopiedString-cons m r s t n ne a here c = record {
  size = suc c.size;
  fits = below c.fits;
  inside = inside;
  nonzero = nonzero;
  terminated = ap r (omega arith) ∙ c.terminated;
  whole = whole c.whole;
  outside = λ q h. c.outside q (ground arith) ∙ store_byte-other m s (m t) q (ground arith);
}
  where
    below : c.size < n → suc c.size < suc n
    below l = omega arith

    source : (i : ℕ) → i < n → store_byte m s (m t) (t + 1 + i) ≡ m (t + suc i)
    source i l = store_byte-other m s (m t) (t + 1 + i) (ground arith) ∙ ap m (omega arith)

    within : (i : ℕ) → i < c.size → c.size < n → i < n
    within i l f = omega arith

    inside : (i : ℕ) → i < suc c.size → r (s + i) ≡ m (t + i)
    inside zero l = ap r (omega arith) ∙ here ∙ ap m (omega arith)
    inside (suc i) l =
        ap r (omega arith) ∙ c.inside i (omega arith) ∙ source i (within i (omega arith) c.fits)

    nonzero : (i : ℕ) → i < suc c.size → m (t + i) ≢ 0
    nonzero zero l e = ne (ap m (omega arith) ∙ e)
    nonzero (suc i) l e = c.nonzero i (omega arith) (source i (within i (omega arith) c.fits) ∙ e)

    whole :
        (suc c.size ≡ n) ⊎ (store_byte m s (m t) (t + 1 + c.size) ≡ 0)
        → (suc (suc c.size) ≡ suc n) ⊎ (m (t + suc c.size) ≡ 0)
    whole (inl e) = inl (ap suc e)
    whole (inr e) = inr (sym (source c.size c.fits) ∙ e)

copy_string-CopiedString :
    (m : ℕ → ℕ) (s t n : ℕ) → Apart s t (suc n) → CopiedString m s t (suc n) (copy_string m s t n)
unfolding copy_string
copy_string-CopiedString m s t zero a = CopiedString-last m s t
copy_string-CopiedString m s t (suc n) a =
    choose (m t == 0) refl
      (copy_string-CopiedString (store_byte m s (m t)) (s + 1) (t + 1) n (ground arith))
  where
    m1 : ℕ → ℕ
    m1 = store_byte m s (m t)

    zeroed : (m t == 0) ≡ true → m t ≡ 0
    zeroed e = ground arith

    kept : (m t == 0) ≡ false → m t ≢ 0
    kept e = ground arith

    here : copy_string m1 (s + 1) (t + 1) n s ≡ m t
    here =
        copy_string-outside m1 (s + 1) (t + 1) n s (inl (omega arith))
        ∙ store_byte-same m s (m t) s refl

    choose :
        (b : Bool)
        → (m t == 0) ≡ b
        → CopiedString m1 (s + 1) (t + 1) (suc n) (copy_string m1 (s + 1) (t + 1) n)
        → CopiedString m s t
            (suc (suc n))
            (if b then store_byte m1 (s + 1) 0 else copy_string m1 (s + 1) (t + 1) n)
    choose true e r = CopiedString-here m s t n (zeroed e)
    choose false e r =
        CopiedString-cons m (copy_string m1 (s + 1) (t + 1) n) s t (suc n) (kept e) a here r

-- `safestrcpy` into `n > 0` bytes that do not overlap the source copies the string, cut off so that it
-- fits with its NUL, always ends it with a NUL inside the `n` bytes, and writes nothing outside of them.
pub safestrcpy-CopiedString :
    (m : ℕ → ℕ) (s t n : ℕ) → 0 < n → Apart s t n → CopiedString m s t n (safestrcpy m s t n)
unfolding safestrcpy
safestrcpy-CopiedString m s t zero h a = absurd (omega arith)
safestrcpy-CopiedString m s t (suc n) h a = copy_string-CopiedString m s t n a
