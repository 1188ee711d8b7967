-- ===== src/XvBio/Latest.antt =====
-- Runs of requests to the cache.
use mephi_os_labs.Prelude.{
  ℕ, ◌<◌, ◌≡◌, refl, ap, sym, ◌∙◌, ◌≢◌, Bool, true, false, ◌&&◌, some, arith, ◌==◌, if◌then◌else◌,
  ==_iff, ==_refl,
}
use mephi_os_labs.XvBio.{
  Bcache, binit, put_buf, put_block, bget, acquiresleep, read_in, bwrite, brelse,
}
use mephi_os_labs.XvBio.View.{IsView, put_buf-elim}

module _ {B : Type 0} where
  -- A process changes the content of a buffer and marks it as dirty, as `log_write` does.
  abbrev pub modify : Bcache B → ℕ → B → Bcache B
  modify s i x = record s {
    buf = put_buf s.buf i (record (s.buf i) { content = x; dirty = true; valid = true });
  }

  -- The cache as `binit` leaves it: fresh buffers, with the device 0.
  pub record IsFresh (n : ℕ) (s : Bcache B) : Type 0 where
    pub list : s.list ≡ binit n
    pub buffers :
        (i : ℕ)
        → i < n
        → ((s.buf i).dev ≡ 0) × ((s.buf i).valid ≡ false) × ((s.buf i).dirty ≡ false)

  -- The states that a cache of `n` buffers can be in, with the contents that were last given to each block.
  pub data Run (n : ℕ) : Bcache B → (ℕ → ℕ → B) → Type 0 where
    starts : {s : Bcache B} → IsFresh n s → Run n s s.disk
    gets :
        {s s' : Bcache B} {v : ℕ → ℕ → B} (dev blockno : ℕ) {i : ℕ}
        → dev ≢ 0
        → bget s dev blockno ≡ some (i, s')
        → Run n s v
        → Run n s' v
    acquires :
        {s s' : Bcache B} {v : ℕ → ℕ → B} (i : ℕ)
        → acquiresleep s i ≡ some s'
        → Run n s v
        → Run n s' v
    reads :
        {s : Bcache B} {v : ℕ → ℕ → B} (i : ℕ)
        → i < n
        → (s.buf i).dev ≢ 0
        → Run n s v
        → Run n (read_in s i) v
    modifies :
        {s : Bcache B} {v : ℕ → ℕ → B} (i : ℕ) (x : B)
        → i < n
        → (s.buf i).dev ≢ 0
        → Run n s v
        → Run n (modify s i x) (put_block v (s.buf i).dev (s.buf i).blockno x)
    writes :
        {s s' : Bcache B} {v : ℕ → ℕ → B} (i : ℕ)
        → i < n
        → (s.buf i).dev ≢ 0
        → (s.buf i).valid ≡ true
        → bwrite s i ≡ some s'
        → Run n s v
        → Run n s' v
    releases :
        {s s' : Bcache B} {v : ℕ → ℕ → B} (i : ℕ)
        → i < n
        → brelse s i ≡ some s'
        → Run n s v
        → Run n s' v

  pub put_block-same : (v : ℕ → ℕ → B) (d c : ℕ) (x : B) → put_block v d c x d c ≡ x
  put_block-same v d c x =
      ap (λ t. if t && c == c then x else v d c) (==_refl d)
      ∙ ap (λ t. if true && t then x else v d c) (==_refl c)

  put_block-other :
      (v : ℕ → ℕ → B) (d c e g : ℕ) (x : B) → (e ≡ d → g ≢ c) → put_block v d c x e g ≡ v e g
  put_block-other v d c e g x h = ground arith

  pub put_block_self :
      (disk v : ℕ → ℕ → B) (d c : ℕ) (x : B)
      → x ≡ v d c
      → (e g : ℕ) → disk e g ≡ v e g
      → put_block disk d c x e g ≡ v e g
  put_block_self disk v d c x h e g k = choose (e == d) refl (g == c) refl
    where
      choose :
          (s : Bool)
          → (e == d) ≡ s
          → (t : Bool) → (g == c) ≡ t
          → (if e == d && g == c then x else disk e g) ≡ v e g
      choose true p true q =
          ap (λ b. if b && g == c then x else disk e g) p
          ∙ ap (λ b. if true && b then x else disk e g) q
          ∙ h
          ∙ ap (λ y. v y c) (sym ((==_iff e d).0 p))
          ∙ ap (v e) (sym ((==_iff g c).0 q))
      choose true p false q =
          ap (λ b. if b && g == c then x else disk e g) p
          ∙ ap (λ b. if true && b then x else disk e g) q
          ∙ k
      choose false p t q = ap (λ b. if b && g == c then x else disk e g) p ∙ k

  pub fresh-IsView : (n : ℕ) (s : Bcache B) → IsFresh n s → IsView n s.disk s
  fresh-IsView n s f = record {
    once = λ i j hi hj ne z. absurd (z (f.buffers i hi).0);
    held = λ i hi z. absurd (z (f.buffers i hi).0);
    clean = λ i hi z. absurd (z (f.buffers i hi).0);
    loaded = λ i hi h. absurd (flag (sym (f.buffers i hi).2 ∙ h));
    other = λ d c z h. refl;
  }
    where
      flag : false ≢ true
      flag h = ground arith

  pub modify-IsView :
      (n : ℕ) (v : ℕ → ℕ → B) (s : Bcache B) (i : ℕ) (x : B)
      → i < n
      → (s.buf i).dev ≢ 0
      → IsView n v s
      → IsView n (put_block v (s.buf i).dev (s.buf i).blockno x) (modify s i x)
  modify-IsView n v s i x hi hd w =
      let b' = record (s.buf i) { content = x; dirty = true; valid = true } in
      let dev = (s.buf i).dev in
      let blockno = (s.buf i).blockno in
      let v' = put_block v dev blockno x in
      let block = λ (j : ℕ).
        put_buf-elim (λ j x. (x.dev ≡ (s.buf j).dev) × (x.blockno ≡ (s.buf j).blockno)) s.buf i b'
          (refl, refl) (λ j ne. (refl, refl)) j in
      let apart = λ (j : ℕ) (nj : j ≢ i) (hj : j < n) (z : (s.buf j).dev ≢ 0).
        put_block-other v dev blockno (s.buf j).dev (s.buf j).blockno x
          (λ d. w.once j i hj hi nj z d) in
      record {
        once = λ j k hj hk ne z d c.
            w.once j k hj hk ne (λ x. z ((block j).0 ∙ x)) (sym (block j).0 ∙ d ∙ (block k).0)
              (sym (block j).1 ∙ c ∙ (block k).1);
        held = λ j hj.
            put_buf-elim
              (λ j y. j < n → y.dev ≢ 0 → y.valid ≡ true → y.content ≡ v' y.dev y.blockno) s.buf i
              b' (λ _ _ _. sym (put_block-same v dev blockno x))
              (λ j nj hj z h. w.held j hj z h ∙ sym (apart j nj hj z)) j hj;
        clean = λ j hj.
            put_buf-elim
              (λ j y.
                j < n → y.dev ≢ 0 → y.dirty ≡ false → s.disk y.dev y.blockno ≡ v' y.dev y.blockno)
              s.buf i b' (λ _ _ h. absurd (flag h))
              (λ j nj hj z h. w.clean j hj z h ∙ sym (apart j nj hj z)) j hj;
        loaded = λ j hj.
            put_buf-elim (λ j y. j < n → y.dirty ≡ true → y.valid ≡ true) s.buf i b' (λ _ _. refl)
              (λ j nj hj. w.loaded j hj) j hj;
        other = λ d c z h.
            let missing =
              λ (k : ℕ) (hk : k < n) (p : (s.buf k).dev ≡ d) (q : (s.buf k).blockno ≡ c).
                h k hk ((block k).0 ∙ p) ((block k).1 ∙ q) in
            w.other d c z missing
            ∙ sym (put_block-other v dev blockno d c x (λ p q. missing i hi (sym p) (sym q)));
      }
    where
      flag : true ≢ false
      flag h = ground arith
