-- ===== src/XvBio/Requests.antt =====
-- The operations on the cache keep what it stands for.
use mephi_os_labs.Prelude.{
  ℕ, ◌+◌, ◌%◌, ◌^◌, ◌<◌, ◌≡◌, refl, ap, sym, ◌∙◌, subst, ◌≢◌, Bool, true, false, Option, none, some,
  arith, if◌then◌else◌,
}
use mephi_os_labs.XvBio.{
  Buf, Bcache, put_buf, put_block, is_block, is_free, find_buf, backwards, recycled, found, bget,
  read_in,
}
use mephi_os_labs.XvBio.View.{
  IsView, put_buf-elim, put_buf-same, SameBlock-IsView, put_buf-SameBlock,
}
use mephi_os_labs.XvBio.Reads.{
  IsList, find_buf-some, find_buf-none, All-backwards, All-unbackwards, same_block, free-lem,
  recycled-IsView,
}

module _ {B : Type 0} (n : ℕ) (v : ℕ → ℕ → B) where
  -- What `bget` gives: a buffer of the block, and a cache that stands for the same.
  pub record Gets (dev blockno : ℕ) (s : Bcache B) (i : ℕ) (s' : Bcache B) : Type 0 where
    pub view : IsView n v s'
    pub list : s'.list ≡ s.list
    pub in_cache : i < n
    pub block_dev : (s'.buf i).dev ≡ dev
    pub block_no : (s'.buf i).blockno ≡ blockno

  -- `bget` on a sound cache: a panic means that every buffer is in use or dirty.
  abbrev pub GetsResult : ℕ → ℕ → Bcache B → Option (ℕ × Bcache B) → Type 0
  GetsResult dev blockno s none = (j : ℕ) → j < n → is_free (s.buf j) ≡ false
  GetsResult dev blockno s (some r) = Gets dev blockno s r.0 r.1

  found-Gets :
      (s : Bcache B) (dev blockno i : ℕ)
      → i < n
      → is_block (s.buf i) dev blockno ≡ true
      → IsView n v s
      → Gets dev blockno s i (record s {
        buf = put_buf s.buf i (record (s.buf i) { refcnt = ((s.buf i).refcnt + 1) % 2 ^ 32 });
      })
  found-Gets s dev blockno i hi e w =
      let b = record (s.buf i) { refcnt = ((s.buf i).refcnt + 1) % 2 ^ 32 } in
      let q = same_block (s.buf i).dev (s.buf i).blockno dev blockno e in
      let at = put_buf-same s.buf i b in
      record {
        view =
            SameBlock-IsView n v s (record s { buf = put_buf s.buf i b })
              (put_buf-SameBlock s.buf i b
                (record { dev = refl; blockno = refl; valid = refl; dirty = refl; content = refl }))
              refl w;
        list = refl;
        in_cache = hi;
        block_dev = ap (λ x. x.dev) at ∙ q.0;
        block_no = ap (λ x. x.blockno) at ∙ q.1;
      }

  recycled-Gets :
      (s : Bcache B) (dev blockno i : ℕ)
      → i < n
      → dev ≢ 0
      → is_free (s.buf i) ≡ true
      → ((j : ℕ) → j < n → is_block (s.buf j) dev blockno ≡ false)
      → IsView n v s
      → Gets dev blockno s i (record s { buf = put_buf s.buf i (recycled (s.buf i) dev blockno) })
  recycled-Gets s dev blockno i hi hd e missing w =
      let at = put_buf-same s.buf i (recycled (s.buf i) dev blockno) in
      record {
        view =
            recycled-IsView n v s i dev blockno hi hd (free-lem (s.buf i).refcnt (s.buf i).dirty e)
              missing w;
        list = refl;
        in_cache = hi;
        block_dev = ap (λ x. x.dev) at;
        block_no = ap (λ x. x.blockno) at;
      }

  pub bget-GetsResult :
      (s : Bcache B) (dev blockno : ℕ)
      → dev ≢ 0
      → IsList n s.list
      → IsView n v s
      → GetsResult dev blockno s (bget s dev blockno)
  unfolding bget
  bget-GetsResult s dev blockno hd l w =
      search (find_buf (λ i. is_block (s.buf i) dev blockno) s.list) refl
        (find_buf (λ i. is_free (s.buf i)) (backwards s.list)) refl
    where
      search :
          (o : Option ℕ)
          → find_buf (λ i. is_block (s.buf i) dev blockno) s.list ≡ o
          → (u : Option ℕ) → find_buf (λ i. is_free (s.buf i)) (backwards s.list) ≡ u
          → GetsResult dev blockno s (found s dev blockno o u)
      search (some i) e u f =
          let r =
            find_buf-some (λ i. i < n) (λ i. is_block (s.buf i) dev blockno) s.list l.below e in
          found-Gets s dev blockno i r.1 r.0 w
      search none e (some i) f =
          let r =
            find_buf-some (λ i. i < n) (λ i. is_free (s.buf i)) (backwards s.list)
              (All-backwards (λ i. i < n) s.list l.below) f in
          recycled-Gets s dev blockno i r.1 hd r.0
            (l.covers (λ j. is_block (s.buf j) dev blockno ≡ false)
              (find_buf-none (λ i. is_block (s.buf i) dev blockno) s.list e))
            w
      search none e none f =
          l.covers (λ j. is_free (s.buf j) ≡ false)
            (All-unbackwards (λ j. is_free (s.buf j) ≡ false) s.list
              (find_buf-none (λ i. is_free (s.buf i)) (backwards s.list) f))

  -- What a buffer's content is to be.
  abbrev pub contents : Bcache B → ℕ → B
  contents s i = v (s.buf i).dev (s.buf i).blockno

  -- A buffer that is valid and clean, with the content that its block has.
  pub loaded-IsView :
      (s : Bcache B) (i : ℕ) (b' : Buf B) (disk : ℕ → ℕ → B)
      → i < n
      → b'.dev ≡ (s.buf i).dev
      → b'.blockno ≡ (s.buf i).blockno
      → b'.dirty ≡ false
      → b'.valid ≡ true
      → b'.content ≡ contents s i
      → disk (s.buf i).dev (s.buf i).blockno ≡ contents s i
      → ((d c : ℕ) → s.disk d c ≡ v d c → disk d c ≡ v d c)
      → IsView n v s
      → IsView n v (record s { buf = put_buf s.buf i b'; disk = disk })
  loaded-IsView s i b' disk hi ed eb ey ev ec here keeps w =
      let f = put_buf s.buf i b' in
      let at = λ (g : ℕ → ℕ → B). ap (λ d. g d b'.blockno) ed ∙ ap (g (s.buf i).dev) eb in
      let block = λ (j : ℕ).
        put_buf-elim (λ j x. (x.dev ≡ (s.buf j).dev) × (x.blockno ≡ (s.buf j).blockno)) s.buf i b'
          (ed, eb) (λ j ne. (refl, refl)) j in
      record {
        once = λ j k hj hk ne z d c.
            w.once j k hj hk ne (λ x. z ((block j).0 ∙ x)) (sym (block j).0 ∙ d ∙ (block k).0)
              (sym (block j).1 ∙ c ∙ (block k).1);
        held = λ j hj.
            put_buf-elim (λ j x. j < n → x.dev ≢ 0 → x.valid ≡ true → x.content ≡ v x.dev x.blockno)
              s.buf i b' (λ _ _ _. ec ∙ sym (at v)) (λ j nj hj. w.held j hj) j hj;
        clean = λ j hj.
            put_buf-elim
              (λ j x.
                j < n → x.dev ≢ 0 → x.dirty ≡ false → disk x.dev x.blockno ≡ v x.dev x.blockno)
              s.buf i b' (λ _ _ _. at disk ∙ here ∙ sym (at v))
              (λ j nj hj z h. keeps (s.buf j).dev (s.buf j).blockno (w.clean j hj z h)) j hj;
        loaded = λ j hj.
            put_buf-elim (λ j x. j < n → x.dirty ≡ true → x.valid ≡ true) s.buf i b' (λ _ _. ev)
              (λ j nj hj. w.loaded j hj) j hj;
        other = λ d c z h.
            keeps d c (w.other d c z (λ k hk x y. h k hk ((block k).0 ∙ x) ((block k).1 ∙ y)));
      }

  -- `bread` behind `bget`: the buffer of a block of the disk has the block's contents.
  pub read_in-IsView :
      (s : Bcache B) (i : ℕ)
      → i < n
      → (s.buf i).dev ≢ 0
      → IsView n v s
      → IsView n v (read_in s i) × (((read_in s i).buf i).content ≡ contents s i)
  unfolding read_in
  read_in-IsView s i hi hd w = choose (s.buf i).valid refl (s.buf i).dirty refl
    where
      unread : (s.buf i).valid ≡ false → (s.buf i).dirty ≢ true
      unread e f = absurd_flag (sym (w.loaded i hi f) ∙ e)
        where
          absurd_flag : true ≢ false
          absurd_flag h = ground arith

      read : Buf B
      read = record (s.buf i) {
        valid = true;
        dirty = false;
        content = s.disk (s.buf i).dev (s.buf i).blockno;
      }

      written : Bcache B
      written = record s {
        buf = put_buf s.buf i (record (s.buf i) { valid = true; dirty = false });
        disk = put_block s.disk (s.buf i).dev (s.buf i).blockno (s.buf i).content;
      }

      result : Bool → Bool → Bcache B
      result b d = if b then s else (if d then written else record s { buf = put_buf s.buf i read })

      choose :
          (b : Bool)
          → (s.buf i).valid ≡ b
          → (d : Bool) → (s.buf i).dirty ≡ d
          → IsView n v (result (s.buf i).valid (s.buf i).dirty)
            × (((result (s.buf i).valid (s.buf i).dirty).buf i).content ≡ contents s i)
      choose true e d f =
          subst
            (λ x.
              IsView n v (result x (s.buf i).dirty)
              × (((result x (s.buf i).dirty).buf i).content ≡ contents s i))
            (sym e) (w, w.held i hi hd e)
      choose false e true f = absurd (unread e f)
      choose false e false f =
          subst
            (λ x.
              IsView n v (result x (s.buf i).dirty)
              × (((result x (s.buf i).dirty).buf i).content ≡ contents s i))
            (sym e)
            (subst
              (λ x. IsView n v (result false x) × (((result false x).buf i).content ≡ contents s i))
              (sym f)
              (
                loaded-IsView s i read s.disk hi refl refl refl refl (w.clean i hi hd f)
                    (w.clean i hi hd f) (λ d c h. h) w,
                ap (λ x. x.content) (put_buf-same s.buf i read) ∙ w.clean i hi hd f,
              ))
