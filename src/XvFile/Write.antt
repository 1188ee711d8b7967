-- ===== src/XvFile/Write.antt =====
-- How `filewrite` ends.
use mephi_os_labs.Prelude.{
  ℕ, zero, suc, ◌+◌, ◌-◌, ◌%◌, ◌^◌, ◌≤◌, ◌<◌, ◌≡◌, refl, ap, sym, ◌∙◌, subst, Bool, true, false,
  Option, none, some, arith, ltb, ◌==◌, if◌then◌else◌, ltb→false, ==_iff, ==_refl, ltb→lt, lt→ltb,
}
use mephi_os_labs.XvFile.{
  File, WriteResult, all_written, failed, short_filewrite, chunk, advanced, after_writei,
  write_from, filewrite,
}

chunk_positive : (i n : ℕ) → i < n → 0 < chunk i n
chunk_positive i n h = ground arith

chunk_fits : (i n : ℕ) → i < n → i + chunk i n ≤ n
chunk_fits i n h = ground arith

fuel_left : (fuel i n k : ℕ) → 0 < k → n < i + suc fuel → n < i + k + fuel
fuel_left fuel i n k p h = omega arith

abbrev pub Ends : {W : Type 0} → Option (WriteResult × ℕ × W) → Type 0
Ends {W = W} o = (x : WriteResult × ℕ × W) × (o ≡ some x)

after_writei-Ends :
    {W : Type 0} (go_on : ℕ → Option (WriteResult × ℕ × W)) (off i n : ℕ) (o : Option ℕ) (w : W)
    → Ends (go_on (chunk i n))
    → Ends (after_writei go_on off i n o w)
after_writei-Ends go_on off i n none w h = ((failed, off, w), refl)
after_writei-Ends go_on off i n (some k) w h =
    choose (k == chunk i n) (λ e. (==_iff k (chunk i n)).0 e)
  where
    choose :
        (b : Bool)
        → (b ≡ true → k ≡ chunk i n)
        → Ends (if b then go_on k else some (short_filewrite, advanced off k, w))
    choose true e = subst (λ z. Ends (go_on z)) (sym (e refl)) h
    choose false e = ((short_filewrite, advanced off k, w), refl)

module _ {W : Type 0} (writei : W → ℕ → ℕ → ℕ → Option ℕ × W) where
  write_from-Ends :
      (fuel addr n i off : ℕ) (w : W)
      → n < i + fuel
      → i ≤ n
      → Ends (write_from writei fuel addr n i off w)
  unfolding write_from
  write_from-Ends zero addr n i off w h g = absurd (omega arith)
  write_from-Ends (suc fuel) addr n i off w h g = choose (ltb i n) refl (λ l.
      write_from-Ends fuel addr n (i + chunk i n) (advanced off (chunk i n)) r.1
        (fuel_left fuel i n (chunk i n) (chunk_positive i n l) h) (chunk_fits i n l))
    where
      r : Option ℕ × W
      r = writei w (addr + i) off (chunk i n)

      go_on : ℕ → Option (WriteResult × ℕ × W)
      go_on k = write_from writei fuel addr n (i + k) (advanced off k) r.1

      choose :
          (b : Bool)
          → ltb i n ≡ b
          → (i < n → Ends (go_on (chunk i n)))
          → Ends (
              if b
              then after_writei go_on off i n r.0 r.1
              else some (if i == n then all_written n else failed, off, w))
      choose true e f = after_writei-Ends go_on off i n r.0 r.1 (f (ltb→lt i n e))
      choose false e f = ((if i == n then all_written n else failed, off, w), refl)

  -- `filewrite` ends for every `writei`.
  pub filewrite-Ends : (f : File) (addr n : ℕ) (w : W) → Ends (filewrite writei f addr n w)
  unfolding filewrite
  filewrite-Ends f addr n w =
      choose f.writable (write_from-Ends (n + 1) addr n 0 f.off w (omega arith) (omega arith))
    where
      choose :
          (b : Bool)
          → Ends (write_from writei (n + 1) addr n 0 f.off w)
          → Ends (if b then write_from writei (n + 1) addr n 0 f.off w else some (failed, f.off, w))
      choose true h = h
      choose false h = ((failed, f.off, w), refl)

  -- The result and the offset of a write that went well.
  abbrev pub WroteAll : ℕ → ℕ → Option (WriteResult × ℕ × W) → Type 0
  WroteAll n off o = (w : W) × (o ≡ some (all_written n, off, w))

  module _ (whole : (w : W) (a o k : ℕ) → (writei w a o k).0 ≡ some k) where
    write_from-WroteAll :
        (fuel addr n i off : ℕ) (w : W)
        → n < i + fuel
        → i ≤ n
        → off < 2 ^ 32
        → WroteAll n ((off + (n - i)) % 2 ^ 32) (write_from writei fuel addr n i off w)
    unfolding write_from
    write_from-WroteAll zero addr n i off w h l b = absurd (omega arith)
    write_from-WroteAll (suc fuel) addr n i off w h l b = choose (ltb i n) refl (λ s.
        write_from-WroteAll fuel addr n (i + chunk i n) (advanced off (chunk i n)) r.1
          (fuel_left fuel i n (chunk i n) (chunk_positive i n s) h) (chunk_fits i n s)
          (advanced_bound (chunk i n)))
      where
        r : Option ℕ × W
        r = writei w (addr + i) off (chunk i n)

        go_on : ℕ → Option (WriteResult × ℕ × W)
        go_on k = write_from writei fuel addr n (i + k) (advanced off k) r.1

        advanced_bound : (k : ℕ) → advanced off k < 2 ^ 32
        advanced_bound k = ground arith

        total :
            {k : ℕ}
            → 0 < k
            → i + k ≤ n
            → (advanced off k + (n - (i + k))) % 2 ^ 32 ≡ (off + (n - i)) % 2 ^ 32
        total {k = k} p f = ap (λ z. (z + (n - (i + k))) % 2 ^ 32) (moved p) ∙ omega arith
          where
            moved : 0 < k → advanced off k ≡ (off + k) % 2 ^ 32
            moved p = rw (lt→ltb 0 k p) refl

        at_end : ltb i n ≡ false → i ≡ n
        at_end e = let q = ltb→false i n e in omega arith

        done : i ≡ n → (i == n) ≡ true
        done e = (==_iff i n).1 e

        stay : i ≡ n → off ≡ (off + (n - i)) % 2 ^ 32
        stay e = omega arith

        choose :
            (c : Bool)
            → ltb i n ≡ c
            → (i < n
                → WroteAll n
                    ((advanced off (chunk i n) + (n - (i + chunk i n))) % 2 ^ 32)
                    (go_on (chunk i n)))
            → WroteAll n ((off + (n - i)) % 2 ^ 32) (
                if c
                then after_writei go_on off i n r.0 r.1
                else some (if i == n then all_written n else failed, off, w))
        choose true e f =
            let s = ltb→lt i n e in
            let g = f s in
            (
              g.0,
              rw (whole w (addr + i) off (chunk i n)) (
                  rw (==_refl (chunk i n)) (
                    g.1
                    ∙ ap (λ z. some (all_written n, z, g.0))
                        (total (chunk_positive i n s) (chunk_fits i n s)))),
            )
        choose false e f =
            (w, rw (done (at_end e)) (ap (λ z. some (all_written n, z, w)) (stay (at_end e))))

    -- If `writei` writes each chunk whole, `filewrite` to a writable file gives the count that was asked
    -- for and moves the offset by it, modulo 2^32.
    pub filewrite-WroteAll :
        (f : File) (addr n : ℕ) (w : W)
        → f.writable ≡ true
        → f.off < 2 ^ 32
        → WroteAll n ((f.off + n) % 2 ^ 32) (filewrite writei f addr n w)
    unfolding filewrite
    filewrite-WroteAll f addr n w e b = rw e (
        subst (λ z. WroteAll n ((f.off + z) % 2 ^ 32) (write_from writei (n + 1) addr n 0 f.off w))
          (omega arith)
          (write_from-WroteAll (n + 1) addr n 0 f.off w (omega arith) (omega arith) b))
