-- ===== src/XvLog/Pending.antt =====
-- A disk whose log is empty, and one whose log holds a whole transaction.
use mephi_os_labs.Prelude.{
  ℕ, ◌+◌, ◌^◌, ◌≤◌, ◌<◌, ◌≡◌, refl, ap, sym, ◌∙◌, ◌≢◌, ◌⊎◌, inl, inr, Bool, true, false, ◌||◌, List,
  [], ◌∷◌, arith, ◌==◌, length, All,
}
use mephi_os_labs.XvLog.{Layout, logsize, store}
use mephi_os_labs.XvLog.Disk.{applied, Always, store-same, store-other}
use mephi_os_labs.XvLog.Replay.{
  IsOutside, log_writes, home_writes, Logged, Logged-store, inside-outside,
}

unfoldable pub contains : ℕ → List ℕ → Bool
contains q [] = false
contains q (x ∷ xs) = (q == x) || contains q xs

-- What `log_write` keeps of the header: data blocks, no more than the log has room for.
pub record IsHeader (start size : ℕ) (bs : List ℕ) : Type 0 where
  pub data_blocks : All (IsOutside start size) bs
  pub room : length bs + 1 ≤ size
  pub fits : length bs ≤ logsize
  pub words : All (λ x. x < 2 ^ 32) bs

module _ {B : Type 0} (layout : Layout B) (start size : ℕ) where
  -- The log is empty and the data blocks are those of `t`.
  pub record IsSettled (t d : ℕ → B) : Type 0 where
    pub empty : layout.header (d start) ≡ []
    pub home : (q : ℕ) → IsOutside start size q → d q ≡ t q

  -- The header names the `bs`, the log holds what `t` has there, and elsewhere the data is that of `t`.
  pub record IsPending (bs : List ℕ) (t d : ℕ → B) : Type 0 where
    pub named : layout.header (d start) ≡ bs
    pub logged : Logged start 0 bs t d
    pub home : (q : ℕ) → IsOutside start size q → (contains q bs ≡ true) ⊎ (d q ≡ t q)

  -- The contents `t` are safe: recovery gives them.
  abbrev pub IsSafe : List ℕ → (ℕ → B) → (ℕ → B) → Type 0
  IsSafe bs t d = IsSettled t d ⊎ IsPending bs t d

  start-inside : (q : ℕ) → 0 < size → IsOutside start size q → q ≢ start
  start-inside q h o e = ground arith

  -- Writes to the log leave an empty log empty: the header is not yet written.
  pub log_writes-IsSettled :
      (tail : ℕ) (bs : List ℕ) (t u d : ℕ → B)
      → tail + length bs + 1 ≤ size
      → IsSettled t d
      → Always (IsSettled t) d (log_writes start tail bs u)
  unfolding Always
  log_writes-IsSettled tail [] t u d h s = s
  log_writes-IsSettled tail (b ∷ bs) t u d h s = (
    s,
    log_writes-IsSettled (tail + 1) bs t u (store d (start + tail + 1) (u b)) (omega arith)
        (record {
          empty =
              ap layout.header (store-other d (start + tail + 1) start (u b) (λ e. omega arith))
              ∙ s.empty;
          home = λ q o.
              store-other d (start + tail + 1) q (u b)
                (λ e. inside-outside start size tail (length bs) q h o (sym e))
              ∙ s.home q o;
        }),
  )

  -- They put the contents there, and change neither the header nor data blocks.
  pub record Filled (tail : ℕ) (bs : List ℕ) (t d e : ℕ → B) : Type 0 where
    pub logged : Logged start tail bs t e
    pub home : (q : ℕ) → IsOutside start size q → e q ≡ d q
    pub below : (q : ℕ) → q ≤ start + tail → e q ≡ d q

  pub log_writes-Filled :
      (tail : ℕ) (bs : List ℕ) (t d : ℕ → B)
      → tail + length bs + 1 ≤ size
      → Filled tail bs t d (applied d (log_writes start tail bs t))
  unfolding applied
  log_writes-Filled tail [] t d h = record { logged = tt; home = λ q o. refl; below = λ q hq. refl }
  log_writes-Filled tail (b ∷ bs) t d h =
      let a = start + tail + 1 in
      let ih = log_writes-Filled (tail + 1) bs t (store d a (t b)) (omega arith) in
      record {
        logged = (ih.below a (omega arith) ∙ store-same d a a (t b) refl, ih.logged);
        home = λ q o.
            ih.home q o
            ∙ store-other d a q (t b)
                (λ e. inside-outside start size tail (length bs) q h o (sym e));
        below = λ q hq. ih.below q (omega arith) ∙ store-other d a q (t b) (λ e. omega arith);
      }

  pub store-IsSettled :
      (t d : ℕ → B) (v : B)
      → 0 < size
      → layout.header v ≡ []
      → ((q : ℕ) → IsOutside start size q → d q ≡ t q)
      → IsSettled t (store d start v)
  store-IsSettled t d v h e home = record {
    empty = ap layout.header (store-same d start start v refl) ∙ e;
    home = λ q o. store-other d start q v (start-inside q h o) ∙ home q o;
  }

  pub store-IsPending :
      (bs : List ℕ) (t d : ℕ → B) (v : B)
      → length bs + 1 ≤ size
      → layout.header v ≡ bs
      → Logged start 0 bs t d
      → ((q : ℕ) → IsOutside start size q → (contains q bs ≡ true) ⊎ (d q ≡ t q))
      → IsPending bs t (store d start v)
  store-IsPending bs t d v h e logged home = record {
    named = ap layout.header (store-same d start start v refl) ∙ e;
    logged = Logged-store start size 0 bs t d start v (omega arith) (inr (omega arith)) logged;
    home = λ q o. elim (home q o) [
      | inl c ↦ inl c
      | inr s ↦ inr (store-other d start q v (start-inside q (omega arith) o) ∙ s)
    ];
  }

  -- Blocks that are installed twice, or in part, still give the same contents.
  pub home_writes-IsPending :
      (bs xs : List ℕ) (t d : ℕ → B)
      → length bs + 1 ≤ size
      → All (IsOutside start size) xs
      → IsPending bs t d
      → Always (IsPending bs t) d (home_writes xs t)
  unfolding Always
  home_writes-IsPending bs [] t d h o p = p
  home_writes-IsPending bs (x ∷ xs) t d h (o, os) p = (
    p,
    home_writes-IsPending bs xs t (store d x (t x)) h os (record {
      named =
          ap layout.header
            (store-other d x start (t x) (λ e. start-inside x (omega arith) o (sym e)))
          ∙ p.named;
      logged = Logged-store start size 0 bs t d x (t x) (omega arith) (inl o) p.logged;
      home = λ q oq. elim (p.home q oq) [ inl c ↦ inl c | inr s ↦ inr (stored q x d t s) ];
    }),
  )
    where
      stored : (q x : ℕ) (d t : ℕ → B) → d q ≡ t q → store d x (t x) q ≡ t q
      stored q x d t s = ground arith

  -- After all of them the data blocks are those of `t`.
  pub home_writes-home :
      (xs : List ℕ) (t d : ℕ → B) (q : ℕ)
      → (contains q xs ≡ true) ⊎ (d q ≡ t q)
      → applied d (home_writes xs t) q ≡ t q
  unfolding applied contains
  home_writes-home [] t d q (inl c) = ground arith
  home_writes-home [] t d q (inr s) = s
  home_writes-home (x ∷ xs) t d q h = home_writes-home xs t (store d x (t x)) q (next x xs q d t h)
    where
      next :
          (x : ℕ) (xs : List ℕ) (q : ℕ) (d t : ℕ → B)
          → (((q == x) || contains q xs) ≡ true) ⊎ (d q ≡ t q)
          → (contains q xs ≡ true) ⊎ (store d x (t x) q ≡ t q)
      next x xs q d t h = ground arith
