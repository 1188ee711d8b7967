-- ===== src/Shell/Exec/Descriptors.antt =====
-- What `Dup`, `DupWithOpen` and `ValidateIOAndOpenFile` do to a table of descriptors.
use mephi_os_labs.Prelude.{
  ℕ, ◌≡◌, refl, ap, sym, ◌∙◌, ◌≢◌, ◌⊎◌, inl, inr, Bool, false, Option, none, some, List, [], ◌∷◌,
  arith, ◌==◌, Bool-cases, Option-cases, ==_refl,
}
use mephi_os_labs.Shell.Lexer.{Bytes}
use mephi_os_labs.Shell.Exec.{
  File, write_end, opened, Table, Kernel, IsKernel, FdManager, dup2, install, dup, open_file,
  after_open, dup_std, dup_with_open,
}

-- From `t` to `t'` at most the descriptor `u` was changed among those that were open, and no
-- descriptor of the write end of a pipe came up that was not there.
pub record Follows (u : ℕ) (t t' : Table) : Type 0 where
  pub keeps : (x : ℕ) (f : File) → x ≢ u → t x ≡ some f → t' x ≡ some f
  pub no_new : (x j : ℕ) → t' x ≡ some (write_end j) → (y : ℕ) × (t y ≡ some (write_end j))

pub Follows-refl : (u : ℕ) (t : Table) → Follows u t t
Follows-refl u t = record { keeps = λ x f n e. e; no_new = λ x j e. (x, e) }

pub Follows-trans : {u : ℕ} {s t v : Table} → Follows u s t → Follows u t v → Follows u s v
Follows-trans a b = record {
  keeps = λ x f n e. b.keeps x f n (a.keeps x f n e);
  no_new = λ x j e. let q = b.no_new x j e in a.no_new q.0 j q.1;
}

module _ (k : Kernel) (law : IsKernel k) where
  pub install-keeps :
      (t : Table) (g : File) (x : ℕ) (f : File) → t x ≡ some f → (install k t g).1 x ≡ some f
  unfolding install
  install-keeps t g x f e = elim (Option-cases (k.alloc t)) [
    | inl q ↦ rw (q, install) e
    | inr (fd, q) ↦ rw (q, install) (let r = law t fd q in ground arith)
  ]

  pub install-new :
      (t : Table) (g : File) (x : ℕ) (f : File)
      → (install k t g).1 x ≡ some f
      → (t x ≡ some f) ⊎ (f ≡ g)
  unfolding install
  install-new t g x f = elim (Option-cases (k.alloc t)) [
    | inl q ↦ rw (q, install) (λ e. inl e)
    | inr (fd, q) ↦ rw (q, install) (λ e. ground arith)
  ]

  pub install-only :
      (t : Table) (g : File) (x : ℕ) (f : File)
      → (install k t g).1 x ≡ some f
      → (t x ≡ some f) ⊎ ((install k t g).0 ≡ some x)
  unfolding install
  install-only t g x f = elim (Option-cases (k.alloc t)) [
    | inl q ↦ rw (q, install) (λ e. inl e)
    | inr (fd, q) ↦ rw (q, install) (λ e. ground arith)
  ]

  pub install-result :
      (t : Table) (g : File) {fd : ℕ}
      → (install k t g).0 ≡ some fd
      → (t fd ≡ none) × ((install k t g).1 fd ≡ some g)
  unfolding install
  install-result t g {fd} = elim (Option-cases (k.alloc t)) [
    | inl q ↦ rw (q, install) (λ e. absurd (cc))
    | inr (n, q) ↦ rw (q, install) (λ e. let r = law t n q in (ground arith, ground arith))
  ]

module _ (k : Kernel) (law : IsKernel k) where
  -- A descriptor that refers to no write end is installed.
  pub install-Follows :
      (u : ℕ) (t : Table) (g : File)
      → ((j : ℕ) → g ≡ write_end j → (y : ℕ) × (t y ≡ some (write_end j)))
      → Follows u t (install k t g).1
  install-Follows u t g h = record {
    keeps = λ x f n e. install-keeps k law t g x f e;
    no_new = λ x j e. elim (install-new k law t g x (write_end j) e) [
      | inl q ↦ (x, q)
      | inr q ↦ h j (sym q)
    ];
  }

  dup-Follows : (u : ℕ) (t : Table) (fd : ℕ) → Follows u t (dup k t fd).1
  unfolding dup
  dup-Follows u t fd = elim (Option-cases (t fd)) [
    | inl q ↦ rw (q, dup) (Follows-refl u t)
    | inr (f, q) ↦ rw (q, dup) (install-Follows u t f (λ j e. (fd, q ∙ ap some e)))
  ]

  dup-keeps : (t : Table) (fd x : ℕ) (f : File) → t x ≡ some f → (dup k t fd).1 x ≡ some f
  unfolding dup
  dup-keeps t fd x f e = elim (Option-cases (t fd)) [
    | inl q ↦ rw (q, dup) e
    | inr (g, q) ↦ rw (q, dup) (install-keeps k law t g x f e)
  ]

  dup2-Follows :
      (u : ℕ) (t : Table) (old : ℕ) {f : File}
      → t old ≡ some f
      → Follows u t (dup2 t (some old) u) × (dup2 t (some old) u u ≡ some f)
  unfolding dup2
  dup2-Follows u t old {f} e =
      rw (e, dup2)
        (
          record {
            keeps = λ x g n q. ground arith;
            no_new = λ x j q. elim (Bool-cases (u == x)) [
              | inl s ↦ (old, e ∙ (rw s at q))
              | inr s ↦ (x, rw s at q)
            ];
          },
          rw (==_refl u),
        )

  pub dup_std-Follows :
      (m : FdManager) (t : Table) {old : ℕ} {f : File}
      → m.opened_fd ≡ some old
      → t old ≡ some f
      → Follows m.used_std t (dup_std k m t).1 × ((dup_std k m t).1 m.used_std ≡ some f)
  unfolding dup_std
  dup_std-Follows m t {old} {f} o e =
      let d = dup-keeps t m.used_std old f e in
      let (g, at_used) = dup2-Follows m.used_std (dup k t m.used_std).1 old d in
      rw o (Follows-trans (dup-Follows m.used_std t m.used_std) g, at_used)

-- What stands at a standard descriptor once the paths are opened one after the other.
abbrev pub redirected : File → List Bytes → File
redirected f [] = f
redirected f (p ∷ ps) = redirected (opened p) ps

module _ (k : Kernel) (law : IsKernel k) where
  pub record Sets (m : FdManager) (t t' : Table) (f : File) : Type 0 where
    pub follows : Follows m.used_std t t'
    pub at_std : t' m.used_std ≡ some f

  open_file-result :
      (p : Bytes) (writing : Bool) (t : Table) {fd : ℕ}
      → (open_file k p writing t).0 ≡ some fd
      → (open_file k p writing t).1 fd ≡ some (opened p)
  unfolding open_file
  open_file-result p writing t {fd} = elim (Bool-cases (k.opens p writing)) [
    | inl o ↦ rw (o, open_file) (λ e. (install-result k law t (opened p) e).1)
    | inr o ↦ rw (o, open_file) (λ e. absurd (cc))
  ]

  open_file-Follows :
      (u : ℕ) (p : Bytes) (writing : Bool) (t : Table) → Follows u t (open_file k p writing t).1
  unfolding open_file
  open_file-Follows u p writing t = elim (Bool-cases (k.opens p writing)) [
    | inl o ↦ rw (o, open_file) (install-Follows k law u t (opened p) (λ j e. absurd (cc)))
    | inr o ↦ rw (o, open_file) (Follows-refl u t)
  ]

  after_open-Sets :
      (m : FdManager) (fd : Option ℕ) (t : Table) (f : File)
      → ((n : ℕ) → fd ≡ some n → t n ≡ some f)
      → (after_open k m fd t).1 ≡ false
      → Sets m t (after_open k m fd t).2 f × ((after_open k m fd t).0.used_std ≡ m.used_std)
  unfolding after_open dup_std
  after_open-Sets m none t f h e = absurd (cc)
  after_open-Sets m (some n) t f h e =
      let (a, b) = dup_std-Follows k law (record m { opened_fd = some n }) t refl (h n refl) in
      (record { follows = a; at_std = b }, refl)

  pub Sets-after :
      {m : FdManager} {s t v : Table} {f : File}
      → Follows m.used_std s t
      → Sets m t v f
      → Sets m s v f
  Sets-after a b = record { follows = Follows-trans a b.follows; at_std = b.at_std }

  -- Without an I/O error the file stands at the standard descriptor.
  pub dup_with_open-Sets :
      (m : FdManager) (p : Bytes) (writing : Bool) (t : Table)
      → (dup_with_open k m p writing t).1 ≡ false
      → Sets m t (dup_with_open k m p writing t).2 (opened p)
        × ((dup_with_open k m p writing t).0.used_std ≡ m.used_std)
  dup_with_open-Sets m p writing t =
      unfold dup_with_open in
      λ e.
        let (s, q) =
          after_open-Sets m (open_file k p writing t).0 (open_file k p writing t).1 (opened p)
            (λ n h. open_file-result p writing t h) e in
        (Sets-after (open_file-Follows m.used_std p writing t) s, q)
