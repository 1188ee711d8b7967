-- ===== src/XvBio/Bread.antt =====
-- What a reader gets.
use mephi_os_labs.Prelude.{
  ℕ, ◌<◌, ◌≡◌, sym, ◌∙◌, subst, ◌≢◌, inl, inr, true, false, some, arith, Option-cases,
}
use mephi_os_labs.XvBio.{Bcache, bget, iderw, read_in, is_free}
use mephi_os_labs.XvBio.Reads.{IsList}
use mephi_os_labs.XvBio.Requests.{Gets, GetsResult, bget-GetsResult, read_in-IsView}
use mephi_os_labs.XvBio.Latest.{IsFresh, Run, fresh-IsView, modify-IsView}
use mephi_os_labs.XvBio.Runs.{
  IsCache, acquiresleep-IsCache, bwrite-IsCache, brelse-IsCache, All-binit, binit-covers,
}

read_in-list : {B : Type 0} (s : Bcache B) (i : ℕ) → (read_in s i).list ≡ s.list
unfolding read_in iderw
read_in-list s i = ground arith

module _ {B : Type 0} {n : ℕ} where
  fresh-IsCache : (s : Bcache B) → IsFresh n s → IsCache n s.disk s
  fresh-IsCache s f = record {
    view = fresh-IsView n s f;
    list =
        subst (IsList n) (sym f.list)
          (record { below = All-binit n n (omega arith); covers = binit-covers n });
  }

  bget-Gets :
      (v : ℕ → ℕ → B) (s s' : Bcache B) (dev blockno i : ℕ)
      → dev ≢ 0
      → bget s dev blockno ≡ some (i, s')
      → IsCache n v s
      → Gets n v dev blockno s i s'
  bget-Gets v s s' dev blockno i hd h c =
      subst (GetsResult n v dev blockno s) h (bget-GetsResult n v s dev blockno hd c.list c.view)

  Gets-IsCache :
      (v : ℕ → ℕ → B) (s s' : Bcache B) (dev blockno i : ℕ)
      → Gets n v dev blockno s i s'
      → IsCache n v s
      → IsCache n v s'
  Gets-IsCache v s s' dev blockno i g c = record {
    view = g.view;
    list = subst (IsList n) (sym g.list) c.list;
  }

  -- In every run the cache is sound and stands for the last contents.
  pub Run-IsCache : {s : Bcache B} {v : ℕ → ℕ → B} → Run n s v → IsCache n v s
  Run-IsCache (Run.starts {s = s} f) = fresh-IsCache s f
  Run-IsCache (Run.gets {s = s} {s' = s'} {v = v} dev blockno {i = i} hd e r) =
      let c = Run-IsCache r in
      Gets-IsCache v s s' dev blockno i (bget-Gets v s s' dev blockno i hd e c) c
  Run-IsCache (Run.acquires {s = s} {s' = s'} {v = v} i e r) =
      (acquiresleep-IsCache n v s s' i e (Run-IsCache r)).0
  Run-IsCache (Run.reads {s = s} {v = v} i hi hd r) =
      let c = Run-IsCache r in
      record {
        view = (read_in-IsView n v s i hi hd c.view).0;
        list = subst (IsList n) (sym (read_in-list s i)) c.list;
      }
  Run-IsCache (Run.modifies {s = s} {v = v} i x hi hd r) =
      let c = Run-IsCache r in record { view = modify-IsView n v s i x hi hd c.view; list = c.list }
  Run-IsCache (Run.writes {s = s} {s' = s'} {v = v} i hi hd hv e r) =
      bwrite-IsCache n v s s' i hi hd hv e (Run-IsCache r)
  Run-IsCache (Run.releases {s = s} {s' = s'} {v = v} i hi e r) =
      brelse-IsCache n v s s' i hi e (Run-IsCache r)

  -- In every run `bget` of a block of another device than 0 finds or recycles a buffer, unless each buffer
  -- is in use or dirty.
  pub bget-free :
      {s : Bcache B} {v : ℕ → ℕ → B} (dev blockno i : ℕ)
      → Run n s v
      → dev ≢ 0
      → i < n
      → is_free (s.buf i) ≡ true
      → (r : ℕ × Bcache B) × (bget s dev blockno ≡ some r)
  bget-free {s = s} {v = v} dev blockno i r hd hi h = elim (Option-cases (bget s dev blockno)) [
    | inl e ↦
        let c = Run-IsCache r in
        absurd (
          flag (
            sym h
            ∙ subst (GetsResult n v dev blockno s) e
                (bget-GetsResult n v s dev blockno hd c.list c.view) i hi))
    | inr x ↦ x
  ]
    where
      flag : true ≢ false
      flag h = ground arith
