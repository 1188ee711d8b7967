-- ===== src/XvLog/Replay.antt =====
-- The writes of the loops of log.c, on blocks outside the log.
use mephi_os_labs.Prelude.{
  ℕ, suc, ◌+◌, ◌≤◌, ◌<◌, ◌≡◌, refl, ap, sym, ◌∙◌, ◌≢◌, ◌⊎◌, inl, List, [], ◌∷◌, ◌++◌, arith, length,
  All,
}
use mathlib.Core.List.{append_assoc, append-nil}
use mephi_os_labs.XvLog.{Machine, store, bwrite, write_log, install_trans}
use mephi_os_labs.XvLog.Disk.{store-same, store-other}

-- The log takes `size` blocks from `start` on.
abbrev pub IsOutside : ℕ → ℕ → ℕ → Type 0
IsOutside start size b = (b < start) ⊎ (start + size ≤ b)

-- The `bs` go to data blocks, and the log has room for them behind `tail` others.
pub record IsBatch (start size tail : ℕ) (bs : List ℕ) : Type 0 where
  pub data_blocks : All (IsOutside start size) bs
  pub room : tail + length bs + 1 ≤ size

pub IsBatch-next :
    {start size tail b : ℕ} {bs : List ℕ}
    → IsBatch start size tail (b ∷ bs)
    → IsBatch start size (tail + 1) bs
IsBatch-next i = let r = i.room in record { data_blocks = i.data_blocks.1; room = omega arith }

pub inside-outside :
    (start size tail n b : ℕ)
    → tail + suc n + 1 ≤ size
    → IsOutside start size b
    → start + tail + 1 ≢ b
inside-outside start size tail n b h o e = ground arith

module _ {B : Type 0} where
  -- What `write_log` and `install_trans` write, for the contents `t`.
  abbrev pub log_writes : ℕ → ℕ → List ℕ → (ℕ → B) → List (ℕ × B)
  log_writes start tail [] t = []
  log_writes start tail (b ∷ bs) t = (start + tail + 1, t b) ∷ log_writes start (tail + 1) bs t

  abbrev pub home_writes : List ℕ → (ℕ → B) → List (ℕ × B)
  home_writes [] t = []
  home_writes (b ∷ bs) t = (b, t b) ∷ home_writes bs t

  -- The log's blocks from `tail` on hold the contents of the `bs`.
  abbrev pub Logged : ℕ → ℕ → List ℕ → (ℕ → B) → (ℕ → B) → Type 0
  Logged start tail [] t d = Unit
  Logged start tail (b ∷ bs) t d = (d (start + tail + 1) ≡ t b) × Logged start (tail + 1) bs t d

  -- They do so after a write elsewhere.
  pub Logged-store :
      (start size tail : ℕ) (bs : List ℕ) (t d : ℕ → B) (b : ℕ) (v : B)
      → tail + length bs + 1 ≤ size
      → IsOutside start size b ⊎ (b ≤ start + tail)
      → Logged start tail bs t d
      → Logged start tail bs t (store d b v)
  Logged-store start size tail [] t d b v r o h = tt
  Logged-store start size tail (x ∷ xs) t d b v r o (e, es) = (
    store-other d b (start + tail + 1) v (ground arith) ∙ e,
    Logged-store start size (tail + 1) xs t d b v (omega arith) (ground arith) es,
  )

  -- The loop of `write_log` on a cache that has the contents `t` outside the log.
  pub record Wrote (start size tail : ℕ) (bs : List ℕ) (t : ℕ → B) (m m' : Machine B) : Type 0 where
    pub writes : m'.writes ≡ m.writes ++ log_writes start tail bs t
    pub same : (q : ℕ) → IsOutside start size q → m'.cache q ≡ t q
    pub logged : Logged start tail bs t m'.cache
    pub below : (q : ℕ) → q ≤ start + tail → m'.cache q ≡ m.cache q

  pub write_log-Wrote :
      (start size tail : ℕ) (bs : List ℕ) (t : ℕ → B) (m : Machine B)
      → IsBatch start size tail bs
      → ((q : ℕ) → IsOutside start size q → m.cache q ≡ t q)
      → Wrote start size tail bs t m (write_log start tail bs m)
  unfolding write_log
  write_log-Wrote start size tail [] t m i h = record {
    writes = sym (append-nil m.writes);
    same = h;
    logged = tt;
    below = λ q _. refl;
  }
  write_log-Wrote start size tail (b ∷ bs) t m i h =
      let a = start + tail + 1 in
      let v = m.cache b in
      let here : v ≡ t b = h b i.data_blocks.0 in
      let m1 = bwrite a v m in
      let ih = write_log-Wrote start size (tail + 1) bs t m1 (IsBatch-next i) (λ q o.
        store-other m.cache a q v
          (λ e. inside-outside start size tail (length bs) q i.room o (sym e))
        ∙ h q o) in
      record {
        writes =
            ih.writes
            ∙ append_assoc m.writes ((a, v) ∷ []) (log_writes start (tail + 1) bs t)
            ∙ ap (λ x. m.writes ++ (a, x) ∷ log_writes start (tail + 1) bs t) here;
        same = ih.same;
        logged = (ih.below a (omega arith) ∙ store-same m.cache a a v refl ∙ here, ih.logged);
        below = λ q hq. ih.below q (omega arith) ∙ store-other m.cache a q v (λ e. omega arith);
      }

  -- The loop of `install_trans` on a cache whose log blocks hold the contents `t`.
  pub record Installed (start size : ℕ) (bs : List ℕ) (t : ℕ → B) (m m' : Machine B) : Type 0 where
    pub writes : m'.writes ≡ m.writes ++ home_writes bs t
    pub same : (q : ℕ) → IsOutside start size q → m.cache q ≡ t q → m'.cache q ≡ t q

  pub install_trans-Installed :
      (start size tail : ℕ) (bs : List ℕ) (t : ℕ → B) (m : Machine B)
      → IsBatch start size tail bs
      → Logged start tail bs t m.cache
      → Installed start size bs t m (install_trans start tail bs m)
  unfolding install_trans
  install_trans-Installed start size tail [] t m i h = record {
    writes = sym (append-nil m.writes);
    same = λ q o e. e;
  }
  install_trans-Installed start size tail (b ∷ bs) t m i h =
      let v = m.cache (start + tail + 1) in
      let m1 = bwrite b v m in
      let next = IsBatch-next i in
      let ih =
        install_trans-Installed start size (tail + 1) bs t m1 next (
          Logged-store start size (tail + 1) bs t m.cache b v next.room (inl i.data_blocks.0)
            h.1) in
      record {
        writes =
            ih.writes
            ∙ append_assoc m.writes ((b, v) ∷ []) (home_writes bs t)
            ∙ ap (λ x. m.writes ++ (b, x) ∷ home_writes bs t) h.0;
        same = λ q o e. ih.same q o (store-keeps m.cache b q v t h.0 e);
      }
    where
      store-keeps :
          (c : ℕ → B) (b q : ℕ) (v : B) (t : ℕ → B) → v ≡ t b → c q ≡ t q → store c b v q ≡ t q
      store-keeps c b q v t hv hq = ground arith
