-- ===== src/Kalloc/Free.antt =====
-- The free list against a list of pages.
use mephi_os_labs.Prelude.{
  ℕ, ◌%◌, ◌^◌, ◌≤◌, ◌<◌, ◌≡◌, refl, ap, sym, ◌∙◌, subst, ◌≢◌, false, not, ◌||◌, none, some, List,
  [], ◌∷◌, arith, ltb, leb, ◌==◌, if◌then◌else◌, All,
}
use mephi_os_labs.Kalloc.{Kmem, v2p, fill_page, store, is_bad, kfree, kalloc}

-- The links from `h` on go through the pages and end at 0.
abbrev pub IsChain : (ℕ → ℕ) → ℕ → List ℕ → Type 0
IsChain m h [] = h ≡ 0
IsChain m h (p ∷ ps) = (h ≡ p) × IsChain m (m p) ps

-- An aligned address of the memory behind the kernel and below PHYSTOP.
pub record IsPage (end p : ℕ) : Type 0 where
  pub aligned : p % 4096 ≡ 0
  pub above : end ≤ p
  pub below : v2p p < 234881024
  pub word : p < 2 ^ 32

-- `p` is none of the pages.
abbrev pub IsNew : ℕ → List ℕ → Type 0
IsNew p [] = Unit
IsNew p (q ∷ qs) = (p ≢ q) × IsNew p qs

abbrev pub Distinct : List ℕ → Type 0
Distinct [] = Unit
Distinct (p ∷ ps) = IsNew p ps × Distinct ps

-- The free list is made of these pages, each once. The kernel ends above address 0.
pub record IsFree (end : ℕ) (s : Kmem) (ps : List ℕ) : Type 0 where
  pub chain : IsChain s.memory s.freelist ps
  pub pages : All (IsPage end) ps
  pub distinct : Distinct ps
  pub kernel : 0 < end

fill_page-other :
    (v : ℕ) (m : ℕ → ℕ) (q : ℕ) → v % 4096 ≡ 0 → q % 4096 ≡ 0 → v ≢ q → fill_page v m q ≡ m q
unfolding fill_page
fill_page-other v m q hv hq ne = ground arith

store-other : (m : ℕ → ℕ) (a v q : ℕ) → a ≢ q → store m a v q ≡ m q
store-other m a v q h = ground arith

store-same : (m : ℕ → ℕ) (a v : ℕ) → store m a v a ≡ v
store-same m a v = ground arith

-- A write to another page leaves the links as they are.
IsChain-store :
    (end v w : ℕ) (m : ℕ → ℕ) (h : ℕ) (ps : List ℕ)
    → v % 4096 ≡ 0
    → All (IsPage end) ps
    → IsNew v ps
    → IsChain m h ps
    → IsChain (store (fill_page v m) v w) h ps
IsChain-store end v w m h [] hv pages new c = c
IsChain-store end v w m h (p ∷ ps) hv (page, pages) (ne, new) (c, cs) = (
  c,
  subst (λ x. IsChain (store (fill_page v m) v w) x ps)
      (sym (store-other (fill_page v m) v w p ne ∙ fill_page-other v m p hv page.aligned ne))
      (IsChain-store end v w m (m p) ps hv pages new cs),
)

is_bad-IsPage : (end v : ℕ) → IsPage end v → is_bad end v ≡ false
unfolding is_bad
is_bad-IsPage end v p = good (p.aligned) (p.above) (p.below)
  where
    good :
        v % 4096 ≡ 0
        → end ≤ v
        → v2p v < 234881024
        → (not (v % 4096 == 0) || (ltb v end || leb 234881024 (v2p v))) ≡ false
    good a b c = ground arith

-- The state behind a page that is freed.
abbrev pub freed : ℕ → Kmem → Kmem
freed v s = record { freelist = v; memory = store (fill_page v s.memory) v s.freelist }

-- `kfree` of a page that is not free puts it in front of the list.
pub kfree-IsFree :
    (end v : ℕ) (s : Kmem) (ps : List ℕ)
    → IsFree end s ps
    → IsPage end v
    → IsNew v ps
    → (kfree end v s ≡ some (freed v s)) × IsFree end (freed v s) (v ∷ ps)
unfolding kfree
kfree-IsFree end v s ps f page new = (
  ap (λ b. if b then none else some (freed v s)) (is_bad-IsPage end v page),
  record {
    chain = (
      refl,
      subst (λ x. IsChain (freed v s).memory x ps)
          (sym (store-same (fill_page v s.memory) v s.freelist))
          (IsChain-store end v s.freelist s.memory s.freelist ps page.aligned f.pages new f.chain),
    );
    pages = (page, f.pages);
    distinct = (new, f.distinct);
    kernel = f.kernel;
  },
)

-- What `kalloc` does with the list of free pages.
abbrev pub Allocated : ℕ → ℕ × Kmem → Kmem → List ℕ → Type 0
Allocated end r s [] = (r.0 ≡ 0) × (r.1 ≡ s)
Allocated end r s (p ∷ ps) = (r.0 ≡ p) × (p ≢ 0) × IsFree end r.1 ps × IsNew p ps

not_null : (end p : ℕ) → 0 < end → end ≤ p → (p == 0) ≡ false
not_null end p h1 h2 = ground arith

-- `kalloc` gives 0 and changes nothing when no page is free, and else takes the first page off the list,
-- which is not NULL and not among those that stay free.
pub kalloc-IsFree :
    (end : ℕ) (s : Kmem) (ps : List ℕ) → IsFree end s ps → Allocated end (kalloc s) s ps
unfolding kalloc
kalloc-IsFree end s [] f =
    (f.chain, ap (λ h. if h == 0 then s else record s { freelist = s.memory s.freelist }) f.chain)
kalloc-IsFree end s (p ∷ ps) f =
    let page = f.pages.0 in
    let head = f.chain.0 in
    let e : (s.freelist == 0) ≡ false =
      ap (λ h. h == 0) head ∙ not_null end p f.kernel page.above in
    (
      head,
      (λ z. let a = page.above in let k = f.kernel in omega arith),
      subst (λ b. IsFree end (if b then s else record s { freelist = s.memory s.freelist }) ps)
          (sym e)
          (record {
            chain = subst (λ h. IsChain s.memory (s.memory h) ps) (sym head) f.chain.1;
            pages = f.pages.1;
            distinct = f.distinct.1;
            kernel = f.kernel;
          }),
      f.distinct.0,
    )
