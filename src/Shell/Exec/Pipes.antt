-- ===== src/Shell/Exec/Pipes.antt =====
-- One `pipe` of `Exec`: its two descriptors, and the table behind `close(pipefd[1])`.
use mephi_os_labs.Prelude.{
  ℕ, ◌≡◌, ap, sym, ◌≢◌, ◌⊎◌, inl, inr, none, some, arith, ◌==◌, Bool-cases, Option-cases, ==_iff,
}
use mephi_os_labs.Shell.Exec.{
  File, read_end, write_end, Table, Kernel, IsKernel, make_pipe, install, close,
}
use mephi_os_labs.Shell.Exec.Descriptors.{install-keeps, install-new, install-result, install-only}

abbrev pub NoWrites : Table → Type 0
NoWrites t = (x j : ℕ) → t x ≢ some (write_end j)

module _ (k : Kernel) (law : IsKernel k) where
  pub record Made (n r w : ℕ) (t t' : Table) : Type 0 where
    pub at_r : t' r ≡ some (read_end n)
    pub at_w : t' w ≡ some (write_end n)
    pub new_w : t w ≡ none
    pub apart : w ≢ r
    pub keeps : (x : ℕ) (f : File) → t x ≡ some f → t' x ≡ some f
    pub writes :
        (x j : ℕ) → t' x ≡ some (write_end j) → (t x ≡ some (write_end j)) ⊎ ((x ≡ w) × (j ≡ n))

  pub make_pipe-Made :
      (n r w : ℕ) (t t' : Table) → make_pipe k n t ≡ some (r, w, t') → Made n r w t t'
  unfolding make_pipe
  make_pipe-Made n r w t t' e = record {
    at_r = rw same at (install-keeps k law t1 (write_end n) r (read_end n) ra.1);
    at_w = rw same at wa.1;
    new_w = elim (Option-cases (t w)) [
      | inl q ↦ q
      | inr (f, q) ↦ cc (wa.0, install-keeps k law t (read_end n) w f q)
    ];
    apart = λ q. cc (wa.0, ra.1, ap t1 q);
    keeps = λ x f q.
        rw same at
          (install-keeps k law t1 (write_end n) x f (install-keeps k law t (read_end n) x f q));
    writes = λ x j q. writes_from x j (rw (sym same) at q);
  }
    where
      t1 : Table
      t1 = (install k t (read_end n)).1

      t2 : Table
      t2 = (install k t1 (write_end n)).1

      parts :
          ((install k t (read_end n)).0 ≡ some r)
          × ((install k t1 (write_end n)).0 ≡ some w)
          × (t2 ≡ t')
      parts = (ground arith, ground arith, ground arith)

      same : t2 ≡ t'
      same = parts.2

      ra : (t r ≡ none) × (t1 r ≡ some (read_end n))
      ra = install-result k law t (read_end n) parts.0

      wa : (t1 w ≡ none) × (t2 w ≡ some (write_end n))
      wa = install-result k law t1 (write_end n) parts.1

      writes_from :
          (x j : ℕ) → t2 x ≡ some (write_end j) → (t x ≡ some (write_end j)) ⊎ ((x ≡ w) × (j ≡ n))
      writes_from x j q = elim (install-only k law t1 (write_end n) x (write_end j) q) [
        | inl a ↦ elim (install-new k law t (read_end n) x (write_end j) a) [
          | inl b ↦ inl b
          | inr b ↦ absurd (cc)
        ]
        | inr a ↦ elim (install-new k law t1 (write_end n) x (write_end j) q) [
          | inl b ↦ elim (install-new k law t (read_end n) x (write_end j) b) [
            | inl c ↦ inl c
            | inr c ↦ absurd (cc)
          ]
          | inr b ↦ inr (ground arith, ground arith)
        ]
      ]

module _ (k : Kernel) (law : IsKernel k) where
  -- Behind a round: the write end is closed, everything else is there.
  pub record Round (n r w : ℕ) (t v : Table) : Type 0 where
    pub at_r : v r ≡ some (read_end n)
    pub keeps : (x : ℕ) (f : File) → t x ≡ some f → v x ≡ some f
    pub no_writes : NoWrites v

  pub Made-Round :
      (n r w : ℕ) (t t' : Table)
      → NoWrites t
      → Made k law n r w t t'
      → Round n r w t (close t' (some w))
  Made-Round n r w t t' none_in m = record {
    at_r = let a = m.apart in let b = m.at_r in ground arith;
    keeps = λ x f e.
        let a = m.new_w in
        let b = m.keeps x f e in
        elim (Bool-cases (w == x)) [
          | inl q ↦ let s = (==_iff w x).0 q in absurd (cc (ap t s))
          | inr q ↦ rw q b
        ];
    no_writes = λ x j. elim (Bool-cases (w == x)) [
      | inl q ↦ rw q (λ e. absurd (cc))
      | inr q ↦
          rw q
            (λ e. elim (m.writes x j e) [ inl z ↦ none_in x j z | inr z ↦ absurd (ground arith) ])
    ];
  }
