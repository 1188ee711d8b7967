-- ===== src/XvLog/Commit.antt =====
-- A commit as a whole, with a crash at any point.
use mephi_os_labs.Prelude.{
  ℕ, ◌≡◌, refl, ap, sym, ◌∙◌, subst, ◌⊎◌, inl, inr, true, List, [], ◌∷◌, ◌++◌, arith, take,
}
use mathlib.Core.List.{append_assoc}
use mephi_os_labs.XvLog.{
  Layout, IsLayout, Machine, store, write_log, install_trans, write_head, commit,
}
use mephi_os_labs.XvLog.Disk.{
  applied, applied-append, Always, Always-last, Always-take, Always-append, Always-map,
}
use mephi_os_labs.XvLog.Replay.{
  IsOutside, IsBatch, log_writes, home_writes, Logged-store, write_log-Wrote,
  install_trans-Installed,
}
use mephi_os_labs.XvLog.Pending.{
  contains, IsHeader, IsSettled, IsPending, IsSafe, log_writes-IsSettled, log_writes-Filled,
  store-IsSettled, store-IsPending, home_writes-IsPending, home_writes-home,
}
use mephi_os_labs.XvLog.Crash.{recovery, Reboots, Reboots-IsSettled, cleared-header}

module _ {B : Type 0} (layout : Layout B) (law : IsLayout layout) (start size : ℕ) where
  -- The system before a commit: the log of the disk is empty, and the cache differs from the disk in the
  -- data blocks of the transaction at most.
  pub record IsOpen (bs : List ℕ) (d c : ℕ → B) : Type 0 where
    pub header : IsHeader start size bs
    pub empty : layout.header (d start) ≡ []
    pub pinned : (q : ℕ) → IsOutside start size q → (contains q bs ≡ true) ⊎ (d q ≡ c q)

  -- The machine with the cache `c`, before any write.
  abbrev pub running : (ℕ → B) → Machine B
  running c = record { cache = c; writes = [] }

  unfoldable pub commit_writes : List ℕ → (ℕ → B) → List (ℕ × B)
  unfolding commit
  commit_writes bs c = (commit layout start bs (running c)).writes

  -- The writes of a commit with blocks to log: the log, the header, the blocks, the header.
  record Committed (bs : List ℕ) (c : ℕ → B) : Type 0 where
    named : B
    is_named : layout.header named ≡ bs
    cleared : B
    is_clear : layout.header cleared ≡ []
    writes :
        commit_writes bs c
        ≡ log_writes start 0 bs c ++ (start, named) ∷ (home_writes bs c ++ (start, cleared) ∷ [])

  commit-Committed :
      (b : ℕ) (bs : List ℕ) (c : ℕ → B) → IsHeader start size (b ∷ bs) → Committed (b ∷ bs) c
  unfolding commit_writes
  commit-Committed b bs c i =
      let all = b ∷ bs in
      let batch : IsBatch start size 0 all = record {
        data_blocks = i.data_blocks;
        room = omega (arith, i.room);
      } in
      let m1 = write_log start 0 all (running c) in
      let w1 = write_log-Wrote start size 0 all c (running c) batch (λ q o. refl) in
      let v = layout.with_header all (m1.cache start) in
      let m2 = write_head layout start all m1 in
      let w2 = install_trans-Installed start size 0 all c m2 batch (
        Logged-store start size 0 all c m1.cache start v (omega (arith, i.room)) (inr (omega arith))
          w1.logged) in
      let m3 = install_trans start 0 all m2 in
      let u = layout.with_header [] (m3.cache start) in
      record {
        named = v;
        is_named = law all (m1.cache start) i.fits i.words;
        cleared = u;
        is_clear = cleared-header layout law start size (m3.cache start);
        writes =
            ap (λ ws. ws ++ (start, u) ∷ []) w2.writes
            ∙ ap (λ ws. (ws ++ (start, v) ∷ []) ++ home_writes all c ++ (start, u) ∷ []) w1.writes
            ∙ append_assoc (log_writes start 0 all c ++ (start, v) ∷ []) (home_writes all c)
                ((start, u) ∷ [])
            ∙ append_assoc (log_writes start 0 all c) ((start, v) ∷ [])
                (home_writes all c ++ (start, u) ∷ []);
      }

  -- At every point of a commit the old contents are safe or the new ones.
  abbrev IsEither : List ℕ → (ℕ → B) → (ℕ → B) → (ℕ → B) → Type 0
  IsEither bs d c e = IsSafe layout start size bs d e ⊎ IsSafe layout start size bs c e

  record Commits (bs : List ℕ) (d c : ℕ → B) : Type 0 where
    always : Always (IsEither bs d c) d (commit_writes bs c)
    settled : IsSettled layout start size c (applied d (commit_writes bs c))

  no_blocks : (q : ℕ) (d c : ℕ → B) → (contains q [] ≡ true) ⊎ (d q ≡ c q) → d q ≡ c q
  unfolding contains
  no_blocks q d c (inl e) = ground arith
  no_blocks q d c (inr s) = s

  commit-Commits : (bs : List ℕ) (d c : ℕ → B) → IsOpen bs d c → Commits bs d c
  unfolding commit_writes Always applied
  commit-Commits [] d c o = record {
    always = inl (inl (record { empty = o.empty; home = λ q _. refl }));
    settled = record { empty = o.empty; home = λ q out. no_blocks q d c (o.pinned q out) };
  }
  commit-Commits (b ∷ bs) d c o =
      let all = b ∷ bs in
      let i = o.header in
      let w = commit-Committed b bs c i in
      let xs = log_writes start 0 all c in
      let hs = home_writes all c in
      let d1 = applied d xs in
      let f = log_writes-Filled layout start size 0 all c d (omega (arith, i.room)) in
      let old =
        log_writes-IsSettled layout start size 0 all d c d (omega (arith, i.room))
          (record { empty = o.empty; home = λ q _. refl }) in
      let pending =
        store-IsPending layout start size all c d1 w.named i.room w.is_named f.logged
          (λ q out. moved q d d1 c all (f.home q out) (o.pinned q out)) in
      let d2 = store d1 start w.named in
      let steps =
        home_writes-IsPending layout start size all all c d2 i.room i.data_blocks pending in
      let d3 = applied d2 hs in
      let last = Always-last (IsPending layout start size all c) d2 hs steps in
      let after =
        store-IsSettled layout start size c d3 w.cleared (omega (arith, i.room)) w.is_clear
          (λ q out. home_writes-home layout start size all c d2 q (pending.home q out)) in
      record {
        always = subst (Always (IsEither all d c) d) (sym w.writes) (
            Always-append (IsEither all d c) d xs
              ((start, w.named) ∷ (hs ++ (start, w.cleared) ∷ []))
              (Always-map (IsSettled layout start size d) (IsEither all d c) d xs
                (λ x y. inl (inl y)) old)
              (
                inl (inl (Always-last (IsSettled layout start size d) d xs old)),
                Always-append (IsEither all d c) d2 hs ((start, w.cleared) ∷ [])
                    (Always-map (IsPending layout start size all c) (IsEither all d c) d2 hs
                      (λ x y. inr (inr y)) steps)
                    (inr (inr last), inr (inl after)),
              ));
        settled =
            subst (λ ws. IsSettled layout start size c (applied d ws)) (sym w.writes)
              (subst (IsSettled layout start size c)
                (sym (
                  applied-append d xs ((start, w.named) ∷ (hs ++ (start, w.cleared) ∷ []))
                  ∙ applied-append d2 hs ((start, w.cleared) ∷ [])))
                after);
      }
    where
      moved :
          (q : ℕ) (d d1 c : ℕ → B) (bs : List ℕ)
          → d1 q ≡ d q
          → (contains q bs ≡ true) ⊎ (d q ≡ c q)
          → (contains q bs ≡ true) ⊎ (d1 q ≡ c q)
      moved q d d1 c bs e (inl h) = inl h
      moved q d d1 c bs e (inr h) = inr (e ∙ h)

  -- A commit is atomic. Wherever a crash cuts it off, and however many crashes cut off the recoveries
  -- behind it, a recovery that is not cut off leaves an empty log and either all data blocks as they
  -- were on the disk before the commit or all as they were in the cache. The log must have been
  -- empty, and the cache must differ from the disk in blocks of the transaction at most.
  pub commit-atomic :
      (bs : List ℕ) (d c : ℕ → B) (k : ℕ) {e : ℕ → B}
      → IsOpen bs d c
      → Reboots layout law start size (applied d (take k (commit_writes bs c))) e
      → IsSettled layout start size d (applied e (recovery layout law start size e))
        ⊎ IsSettled layout start size c (applied e (recovery layout law start size e))
  commit-atomic bs d c k {e = e} o r =
      elim (Always-take (IsEither bs d c) d (commit_writes bs c) k
        (commit-Commits bs d c o).always) [
          | inl s ↦ inl (Reboots-IsSettled layout law start size o.header s r)
          | inr s ↦ inr (Reboots-IsSettled layout law start size o.header s r)
        ]

  -- A commit that is not cut off leaves the data blocks of the cache on the disk, and they survive any
  -- crashes in later recoveries.
  pub commit-durable :
      (bs : List ℕ) (d c : ℕ → B) {e : ℕ → B}
      → IsOpen bs d c
      → Reboots layout law start size (applied d (commit_writes bs c)) e
      → IsSettled layout start size c (applied d (commit_writes bs c))
        × IsSettled layout start size c (applied e (recovery layout law start size e))
  commit-durable bs d c o r =
      let s = (commit-Commits bs d c o).settled in
      (s, Reboots-IsSettled layout law start size {bs = bs} o.header (inl s) r)
