-- ===== src/XvBio/Reads.antt =====
-- `bget`, `bread` and `bwrite` against the contents that the cache stands for.
use mephi_os_labs.Prelude.{
  ℕ, ◌<◌, ◌≡◌, refl, ap, sym, ◌∙◌, subst, ◌≢◌, inl, inr, Bool, true, false, not, ◌&&◌, none, some,
  List, [], ◌∷◌, ◌++◌, arith, ◌==◌, if◌then◌else◌, Bool-cases, All, All-append, ==_iff,
}
use mathlib.Core.Option.{none-ne-some, some-injective}
use mephi_os_labs.XvBio.{Buf, Bcache, put_buf, is_block, find_buf, backwards, recycled}
use mephi_os_labs.XvBio.View.{IsView, put_buf-elim}

-- The list has the buffers below `n` and all of them.
pub record IsList (n : ℕ) (is : List ℕ) : Type 1 where
  pub below : All (λ i. i < n) is
  pub covers : (P : ℕ → Type 0) → All P is → (i : ℕ) → i < n → P i

pub find_buf-some :
    (P : ℕ → Type 0) (f : ℕ → Bool) (is : List ℕ) {i : ℕ}
    → All P is
    → find_buf f is ≡ some i
    → (f i ≡ true) × P i
unfolding find_buf
find_buf-some P f [] h e = absurd (none-ne-some _ e)
find_buf-some P f (j ∷ js) {i = i} (h, hs) e = choose (f j) refl (λ r. find_buf-some P f js hs r) e
  where
    choose :
        (b : Bool)
        → f j ≡ b
        → (find_buf f js ≡ some i → (f i ≡ true) × P i)
        → (if b then some j else find_buf f js) ≡ some i
        → (f i ≡ true) × P i
    choose true q ih r = let s = some-injective j i r in (subst (λ x. f x ≡ true) s q, subst P s h)
    choose false q ih r = ih r

pub find_buf-none : (f : ℕ → Bool) (is : List ℕ) → find_buf f is ≡ none → All (λ i. f i ≡ false) is
unfolding find_buf
find_buf-none f [] e = tt
find_buf-none f (j ∷ js) e = choose (f j) refl (λ r. find_buf-none f js r) e
  where
    choose :
        (b : Bool)
        → f j ≡ b
        → (find_buf f js ≡ none → All (λ i. f i ≡ false) js)
        → (if b then some j else find_buf f js) ≡ none
        → All (λ i. f i ≡ false) (j ∷ js)
    choose true q ih r = absurd (none-ne-some j (sym r))
    choose false q ih r = (q, ih r)

pub All-backwards : (P : ℕ → Type 0) (is : List ℕ) → All P is → All P (backwards is)
unfolding backwards
All-backwards P [] h = tt
All-backwards P (i ∷ is) (h, hs) =
    All-append P (backwards is) (i ∷ []) (All-backwards P is hs) (h, tt)

pub All-unbackwards : (P : ℕ → Type 0) (is : List ℕ) → All P (backwards is) → All P is
unfolding backwards
All-unbackwards P [] h = tt
All-unbackwards P (i ∷ is) h =
    ((last (backwards is) h).1, All-unbackwards P is (last (backwards is) h).0)
  where
    last : (xs : List ℕ) → All P (xs ++ i ∷ []) → All P xs × P i
    last [] h = (tt, h.0)
    last (x ∷ xs) h = let r = last xs h.1 in ((h.0, r.0), r.1)

pub same_block : (b c d e : ℕ) → (b == d && c == e) ≡ true → (b ≡ d) × (c ≡ e)
same_block b c d e h = ground arith

pub other_block : (b c d e : ℕ) → (b == d && c == e) ≡ false → b ≡ d → c ≢ e
other_block b c d e h x y = ground arith

pub free-lem : (r : ℕ) (dirty : Bool) → (r == 0 && not dirty) ≡ true → dirty ≡ false
free-lem r dirty h = ground arith

module _ {B : Type 0} (n : ℕ) (v : ℕ → ℕ → B) where
  -- A buffer that is not dirty can be recycled for a block that no buffer has.
  pub recycled-IsView :
      (s : Bcache B) (i dev blockno : ℕ)
      → i < n
      → dev ≢ 0
      → (s.buf i).dirty ≡ false
      → ((j : ℕ) → j < n → is_block (s.buf j) dev blockno ≡ false)
      → IsView n v s
      → IsView n v (record s { buf = put_buf s.buf i (recycled (s.buf i) dev blockno) })
  recycled-IsView s i dev blockno hi hd clean missing w =
      let b' = recycled (s.buf i) dev blockno in
      let f = put_buf s.buf i b' in
      record {
        once = λ j k hj hk ne.
            put_buf-elim
              (λ j x. j < n → j ≢ k → x.dev ≢ 0 → x.dev ≡ (f k).dev → x.blockno ≢ (f k).blockno)
              s.buf i b'
              (λ _ ne _.
                put_buf-elim (λ k y. k < n → i ≢ k → dev ≡ y.dev → blockno ≢ y.blockno) s.buf i b'
                  (λ _ ne. absurd (ne refl))
                  (λ k nk hk ne d c.
                    other_block (s.buf k).dev (s.buf k).blockno dev blockno (missing k hk) (sym d)
                      (sym c))
                  k hk ne)
              (λ j nj hj ne z.
                put_buf-elim
                  (λ k y. k < n → j ≢ k → (s.buf j).dev ≡ y.dev → (s.buf j).blockno ≢ y.blockno)
                  s.buf i b'
                  (λ _ _ d.
                    other_block (s.buf j).dev (s.buf j).blockno dev blockno (missing j hj) d)
                  (λ k nk hk ne. w.once j k hj hk ne z) k hk ne)
              j hj ne;
        held = λ j hj.
            put_buf-elim (λ j x. j < n → x.dev ≢ 0 → x.valid ≡ true → x.content ≡ v x.dev x.blockno)
              s.buf i b' (λ _ _ h. absurd (false≢true h)) (λ j nj hj. w.held j hj) j hj;
        clean = λ j hj.
            put_buf-elim
              (λ j x.
                j < n → x.dev ≢ 0 → x.dirty ≡ false → s.disk x.dev x.blockno ≡ v x.dev x.blockno)
              s.buf i b'
              (λ _ z _.
                w.other dev blockno hd
                  (λ k hk. other_block (s.buf k).dev (s.buf k).blockno dev blockno (missing k hk)))
              (λ j nj hj. w.clean j hj) j hj;
        loaded = λ j hj.
            put_buf-elim (λ j x. j < n → x.dirty ≡ true → x.valid ≡ true) s.buf i b'
              (λ _ h. absurd (false≢true h)) (λ j nj hj. w.loaded j hj) j hj;
        other = λ d c z h. elim (Bool-cases ((s.buf i).dev == d && (s.buf i).blockno == c)) [
          | inl e ↦
              let q = same_block (s.buf i).dev (s.buf i).blockno d c e in
              ap (λ x. s.disk x c) (sym q.0)
              ∙ ap (s.disk (s.buf i).dev) (sym q.1)
              ∙ w.clean i hi (λ x. z (sym q.0 ∙ x)) clean
              ∙ ap (v (s.buf i).dev) q.1
              ∙ ap (λ x. v x c) q.0
          | inr e ↦ w.other d c z (λ k hk. elim (Bool-cases (k == i)) [
            | inl ki ↦
                subst (λ x. (s.buf x).dev ≡ d → (s.buf x).blockno ≢ c) (sym ((==_iff k i).0 ki))
                  (other_block (s.buf i).dev (s.buf i).blockno d c e)
            | inr ki ↦ λ x.
                subst (λ y. y.blockno ≢ c) (other_at k ki b')
                  (h k hk (ap (λ y. y.dev) (other_at k ki b') ∙ x))
          ])
        ];
      }
    where
      false≢true : false ≢ true
      false≢true h = ground arith

      other_at : (k : ℕ) → (k == i) ≡ false → (b : Buf B) → put_buf s.buf i b k ≡ s.buf k
      other_at k e b = ap (λ t. if t then b else s.buf k) e
