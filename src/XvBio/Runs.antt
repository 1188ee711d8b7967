-- ===== src/XvBio/Runs.antt =====
-- In every run the cache stands for the last contents of all blocks.
use mephi_os_labs.Prelude.{
  ℕ, zero, suc, ◌+◌, ◌-◌, ◌%◌, ◌^◌, ◌≤◌, ◌<◌, ◌≡◌, refl, ap, sym, ◌∙◌, subst, ◌≢◌, ◌⊎◌, inl, inr,
  Bool, true, false, not, some, List, [], ◌∷◌, arith, ◌==◌, if◌then◌else◌, guard-some, All, ==_iff,
}
use mephi_os_labs.XvBio.{
  Buf, Bcache, binit, put_buf, put_block, acquiresleep, iderw, bwrite, remove, brelse,
}
use mephi_os_labs.XvBio.View.{
  IsView, put_buf-elim, put_buf-same, SameBlock, SameBlock-IsView, put_buf-SameBlock,
}
use mephi_os_labs.XvBio.Reads.{IsList}
use mephi_os_labs.XvBio.Requests.{loaded-IsView}
use mephi_os_labs.XvBio.Latest.{put_block-same, put_block_self}

pub All-binit : (n m : ℕ) → n ≤ m → All (λ i. i < m) (binit n)
unfolding binit
All-binit zero m h = tt
All-binit (suc n) m h = (omega arith, All-binit n m (omega arith))

pub binit-covers : (n : ℕ) (P : ℕ → Type 0) → All P (binit n) → (i : ℕ) → i < n → P i
unfolding binit
binit-covers zero P h i hi = absurd (omega arith)
binit-covers (suc n) P h i hi = elim (last_or_below n i hi) [
  | inl e ↦ subst P (sym e) h.0
  | inr l ↦ binit-covers n P h.1 i l
]
  where
    last_or_below : (n q : ℕ) → q < suc n → (q ≡ n) ⊎ (q < n)
    last_or_below n q h = ground arith

All-remove : (P : ℕ → Type 0) (i : ℕ) (is : List ℕ) → All P is → All P (remove i is)
unfolding remove
All-remove P i [] h = tt
All-remove P i (j ∷ js) (h, hs) = choose (j == i) (All-remove P i js hs)
  where
    choose : (b : Bool) → All P (remove i js) → All P (if b then remove i js else j ∷ remove i js)
    choose true r = r
    choose false r = (h, r)

All-unremove : (P : ℕ → Type 0) (i : ℕ) (is : List ℕ) → P i → All P (remove i is) → All P is
unfolding remove
All-unremove P i [] p h = tt
All-unremove P i (j ∷ js) p h = choose (j == i) refl (λ r. All-unremove P i js p r) h
  where
    choose :
        (b : Bool)
        → (j == i) ≡ b
        → (All P (remove i js) → All P js)
        → All P (if b then remove i js else j ∷ remove i js)
        → All P (j ∷ js)
    choose true e ih r = (subst P (sym ((==_iff j i).0 e)) p, ih r)
    choose false e ih r = (r.0, ih r.1)

module _ {B : Type 0} (n : ℕ) where
  pub record IsCache (v : ℕ → ℕ → B) (s : Bcache B) : Type 1 where
    pub view : IsView n v s
    pub list : IsList n s.list

  SameBlock-IsCache :
      (v : ℕ → ℕ → B) (s : Bcache B) (i : ℕ) (b : Buf B)
      → SameBlock (s.buf i) b
      → IsCache v s
      → IsCache v (record s { buf = put_buf s.buf i b })
  SameBlock-IsCache v s i b h c = record {
    view =
        SameBlock-IsView n v s (record s { buf = put_buf s.buf i b })
          (put_buf-SameBlock s.buf i b h) refl c.view;
    list = c.list;
  }

  pub acquiresleep-IsCache :
      (v : ℕ → ℕ → B) (s s' : Bcache B) (i : ℕ)
      → acquiresleep s i ≡ some s'
      → IsCache v s
      → IsCache v s' × SameBlock (s.buf i) (s'.buf i)
  acquiresleep-IsCache v s s' i h c =
      let b = record (s.buf i) { locked = true } in
      let same : SameBlock (s.buf i) b = record {
        dev = refl;
        blockno = refl;
        valid = refl;
        dirty = refl;
        content = refl;
      } in
      let e = (guard-some (s.buf i).locked (record s { buf = put_buf s.buf i b }) s' h).1 in
      subst (λ x. IsCache v x × SameBlock (s.buf i) (x.buf i)) e
        (
          SameBlock-IsCache v s i b same c,
          subst (SameBlock (s.buf i)) (sym (put_buf-same s.buf i b)) same,
        )

  -- A buffer that is marked before it is written.
  dirty-IsView :
      (v : ℕ → ℕ → B) (s : Bcache B) (i : ℕ)
      → (s.buf i).valid ≡ true
      → IsView n v s
      → IsView n v (record s { buf = put_buf s.buf i (record (s.buf i) { dirty = true }) })
  dirty-IsView v s i hv w =
      let b' = record (s.buf i) { dirty = true } in
      let block = λ (j : ℕ).
        put_buf-elim (λ j x. (x.dev ≡ (s.buf j).dev) × (x.blockno ≡ (s.buf j).blockno)) s.buf i b'
          (refl, refl) (λ j ne. (refl, refl)) j in
      record {
        once = λ j k hj hk ne z d c.
            w.once j k hj hk ne (λ x. z ((block j).0 ∙ x)) (sym (block j).0 ∙ d ∙ (block k).0)
              (sym (block j).1 ∙ c ∙ (block k).1);
        held = λ j hj.
            put_buf-elim (λ j y. j < n → y.dev ≢ 0 → y.valid ≡ true → y.content ≡ v y.dev y.blockno)
              s.buf i b' (λ hi. w.held i hi) (λ j nj hj. w.held j hj) j hj;
        clean = λ j hj.
            put_buf-elim
              (λ j y.
                j < n → y.dev ≢ 0 → y.dirty ≡ false → s.disk y.dev y.blockno ≡ v y.dev y.blockno)
              s.buf i b' (λ _ _ h. absurd (flag h)) (λ j nj hj. w.clean j hj) j hj;
        loaded = λ j hj.
            put_buf-elim (λ j y. j < n → y.dirty ≡ true → y.valid ≡ true) s.buf i b' (λ _ _. hv)
              (λ j nj hj. w.loaded j hj) j hj;
        other = λ d c z h. w.other d c z (λ k hk p q. h k hk ((block k).0 ∙ p) ((block k).1 ∙ q));
      }
    where
      flag : true ≢ false
      flag h = ground arith

  -- `iderw` of a dirty buffer writes it.
  iderw-IsView :
      (v : ℕ → ℕ → B) (s : Bcache B) (i : ℕ)
      → i < n
      → (s.buf i).dev ≢ 0
      → (s.buf i).dirty ≡ true
      → IsView n v s
      → IsView n v (iderw s i) × ((iderw s i).list ≡ s.list)
  unfolding iderw
  iderw-IsView v s i hi hd h w =
      let b = s.buf i in
      let held = w.held i hi hd (w.loaded i hi h) in
      let disk = put_block s.disk b.dev b.blockno b.content in
      subst (λ x. IsView n v (result x) × ((result x).list ≡ s.list)) (sym h)
        (
          loaded-IsView n v s i (record b { valid = true; dirty = false }) disk hi refl refl refl
              refl held (put_block-same s.disk b.dev b.blockno b.content ∙ held)
              (λ d c k. put_block_self s.disk v b.dev b.blockno b.content held d c k) w,
          refl,
        )
    where
      result : Bool → Bcache B
      result x =
          if x
          then record s {
            buf = put_buf s.buf i (record (s.buf i) { valid = true; dirty = false });
            disk = put_block s.disk (s.buf i).dev (s.buf i).blockno (s.buf i).content;
          }
          else record s {
            buf = put_buf s.buf i (record (s.buf i) {
              valid = true;
              dirty = false;
              content = s.disk (s.buf i).dev (s.buf i).blockno;
            });
          }

  pub bwrite-IsCache :
      (v : ℕ → ℕ → B) (s s' : Bcache B) (i : ℕ)
      → i < n
      → (s.buf i).dev ≢ 0
      → (s.buf i).valid ≡ true
      → bwrite s i ≡ some s'
      → IsCache v s
      → IsCache v s'
  unfolding bwrite
  bwrite-IsCache v s s' i hi hd hv h c =
      let b = record (s.buf i) { dirty = true } in
      let s1 = record s { buf = put_buf s.buf i b } in
      let at = put_buf-same s.buf i b in
      let e = (guard-some (not (s.buf i).locked) (iderw s1 i) s' h).1 in
      let w =
        iderw-IsView v s1 i hi (λ z. hd (sym (ap (λ x. x.dev) at) ∙ z)) (ap (λ x. x.dirty) at)
          (dirty-IsView v s i hv c.view) in
      subst (IsCache v) e (record { view = w.0; list = subst (IsList n) (sym w.1) c.list })

  pub brelse-IsCache :
      (v : ℕ → ℕ → B) (s s' : Bcache B) (i : ℕ)
      → i < n
      → brelse s i ≡ some s'
      → IsCache v s
      → IsCache v s'
  unfolding brelse
  brelse-IsCache v s s' i hi h c =
      let b = record (s.buf i) {
        locked = false;
        refcnt = ((s.buf i).refcnt + (2 ^ 32 - 1)) % 2 ^ 32;
      } in
      let list = if b.refcnt == 0 then i ∷ remove i s.list else s.list in
      let e =
        (guard-some (not (s.buf i).locked) (record s { buf = put_buf s.buf i b; list = list }) s'
          h).1 in
      subst (IsCache v) e (record {
        view =
            SameBlock-IsView n v s (record s { buf = put_buf s.buf i b; list = list })
              (put_buf-SameBlock s.buf i b
                (record { dev = refl; blockno = refl; valid = refl; dirty = refl; content = refl }))
              refl c.view;
        list = moved (b.refcnt == 0) c.list;
      })
    where
      moved : (t : Bool) → IsList n s.list → IsList n (if t then i ∷ remove i s.list else s.list)
      moved true l = record {
        below = (hi, All-remove (λ i. i < n) i s.list l.below);
        covers = λ P h. l.covers P (All-unremove P i s.list h.0 h.1);
      }
      moved false l = l
