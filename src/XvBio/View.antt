-- ===== src/XvBio/View.antt =====
-- What the cache and the disk stand for together: the contents of all blocks.
use mephi_os_labs.Prelude.{
  ℕ, ◌<◌, ◌≡◌, refl, ap, sym, ◌∙◌, subst, ◌≢◌, Bool, true, false, arith, ◌==◌, if◌then◌else◌,
  ==_iff, ==_refl,
}
use mephi_os_labs.XvBio.{Buf, Bcache, put_buf}

-- The buffers are those below `n`; the kernel uses devices other than 0, the number in a fresh buffer.
-- `v` is what readers are to see.
pub record IsView {B : Type 0} (n : ℕ) (v : ℕ → ℕ → B) (s : Bcache B) : Type 0 where
  pub once :
      (i j : ℕ)
      → i < n
      → j < n
      → i ≢ j
      → (s.buf i).dev ≢ 0
      → (s.buf i).dev ≡ (s.buf j).dev
      → (s.buf i).blockno ≢ (s.buf j).blockno
  pub held :
      (i : ℕ)
      → i < n
      → (s.buf i).dev ≢ 0
      → (s.buf i).valid ≡ true
      → (s.buf i).content ≡ v (s.buf i).dev (s.buf i).blockno
  pub clean :
      (i : ℕ)
      → i < n
      → (s.buf i).dev ≢ 0
      → (s.buf i).dirty ≡ false
      → s.disk (s.buf i).dev (s.buf i).blockno ≡ v (s.buf i).dev (s.buf i).blockno
  pub loaded : (i : ℕ) → i < n → (s.buf i).dirty ≡ true → (s.buf i).valid ≡ true
  pub other :
      (d c : ℕ)
      → d ≢ 0
      → ((i : ℕ) → i < n → (s.buf i).dev ≡ d → (s.buf i).blockno ≢ c)
      → s.disk d c ≡ v d c

module _ {B : Type 0} where
  pub put_buf-elim :
      (P : ℕ → Buf B → Type 0) (f : ℕ → Buf B) (i : ℕ) (b : Buf B)
      → P i b
      → ((j : ℕ) → j ≢ i → P j (f j))
      → (j : ℕ) → P j (put_buf f i b j)
  put_buf-elim P f i b here there j = choose (j == i) refl
    where
      not_equal : (j i : ℕ) → (j == i) ≡ false → j ≢ i
      not_equal j i h = ground arith

      choose : (t : Bool) → (j == i) ≡ t → P j (if t then b else f j)
      choose true e = subst (λ x. P x b) (sym ((==_iff j i).0 e)) here
      choose false e = there j (not_equal j i e)

  pub put_buf-same : (f : ℕ → Buf B) (i : ℕ) (b : Buf B) → put_buf f i b i ≡ b
  put_buf-same f i b = ap (λ t. if t then b else f i) (==_refl i)

  -- A buffer that keeps its block, its flags and its content.
  pub record SameBlock (b b' : Buf B) : Type 0 where
    pub dev : b'.dev ≡ b.dev
    pub blockno : b'.blockno ≡ b.blockno
    pub valid : b'.valid ≡ b.valid
    pub dirty : b'.dirty ≡ b.dirty
    pub content : b'.content ≡ b.content

  SameBlock-refl : (b : Buf B) → SameBlock b b
  SameBlock-refl b = record {
    dev = refl;
    blockno = refl;
    valid = refl;
    dirty = refl;
    content = refl;
  }

  -- Counts, locks and the order of the list are not seen.
  pub SameBlock-IsView :
      (n : ℕ) (v : ℕ → ℕ → B) (s s' : Bcache B)
      → ((i : ℕ) → SameBlock (s.buf i) (s'.buf i))
      → s'.disk ≡ s.disk
      → IsView n v s
      → IsView n v s'
  SameBlock-IsView n v s s' k e w = record {
    once = λ i j hi hj ne z d c.
        w.once i j hi hj ne (λ x. z ((k i).dev ∙ x)) (sym (k i).dev ∙ d ∙ (k j).dev)
          (sym (k i).blockno ∙ c ∙ (k j).blockno);
    held = λ i hi z h.
        (k i).content ∙ w.held i hi (λ x. z ((k i).dev ∙ x)) (sym (k i).valid ∙ h) ∙ sym (at v i);
    clean = λ i hi z h.
        ap (λ f. f (s'.buf i).dev (s'.buf i).blockno) e
        ∙ at s.disk i
        ∙ w.clean i hi (λ x. z ((k i).dev ∙ x)) (sym (k i).dirty ∙ h)
        ∙ sym (at v i);
    loaded = λ i hi h. (k i).valid ∙ w.loaded i hi (sym (k i).dirty ∙ h);
    other = λ d c z h.
        ap (λ f. f d c) e ∙ w.other d c z (λ i hi x y. h i hi ((k i).dev ∙ x) ((k i).blockno ∙ y));
  }
    where
      at :
          (f : ℕ → ℕ → B) (i : ℕ)
          → f (s'.buf i).dev (s'.buf i).blockno ≡ f (s.buf i).dev (s.buf i).blockno
      at f i = ap (λ d. f d (s'.buf i).blockno) (k i).dev ∙ ap (f (s.buf i).dev) (k i).blockno

  pub put_buf-SameBlock :
      (f : ℕ → Buf B) (i : ℕ) (b : Buf B)
      → SameBlock (f i) b
      → (j : ℕ) → SameBlock (f j) (put_buf f i b j)
  put_buf-SameBlock f i b h =
      put_buf-elim (λ j y. SameBlock (f j) y) f i b h (λ j ne. SameBlock-refl (f j))
