-- ===== src/XvLog/Crash.antt =====
-- Crashes: after any of the writes of a commit, and of any recovery that follows.
use mephi_os_labs.Prelude.{
  ℕ, ◌<◌, ◌≡◌, ap, sym, ◌∙◌, subst, inl, inr, List, [], ◌∷◌, ◌++◌, arith, take,
}
use mephi_os_labs.XvLog.{Layout, IsLayout, Machine, install_trans, write_head, recover_from_log}
use mephi_os_labs.XvLog.Disk.{
  applied, applied-append, Always, Always-last, Always-take, Always-append, Always-map,
}
use mephi_os_labs.XvLog.Replay.{IsBatch, home_writes, Logged, install_trans-Installed}
use mephi_os_labs.XvLog.Pending.{
  IsHeader, IsSettled, IsPending, IsSafe, store-IsSettled, home_writes-IsPending, home_writes-home,
}

-- After a crash the cache is what the disk has.
abbrev pub rebooted : {B : Type 0} → (ℕ → B) → Machine B
rebooted d = record { cache = d; writes = [] }

module _ {B : Type 0} (layout : Layout B) (law : IsLayout layout) (start size : ℕ) where
  -- The writes of a recovery.
  unfoldable pub recovery : (ℕ → B) → List (ℕ × B)
  unfolding recover_from_log
  recovery d = (recover_from_log layout start (rebooted d)).writes

  -- The disk after crashes in recoveries: each is cut off after some of its writes.
  pub data Reboots : (ℕ → B) → (ℕ → B) → Type 0 where
    here : {d : ℕ → B} → Reboots d d
    crash : {d e : ℕ → B} (k : ℕ) → Reboots d e → Reboots d (applied e (take k (recovery e)))

  -- A recovery installs the blocks that the header names, and clears it.
  record Replayed (xs : List ℕ) (t d : ℕ → B) : Type 0 where
    cleared : B
    is_clear : layout.header cleared ≡ []
    writes : recovery d ≡ home_writes xs t ++ (start, cleared) ∷ []

  pub cleared-header : (v : B) → layout.header (layout.with_header [] v) ≡ []
  cleared-header v = law [] v (omega arith) tt

  recovery-Replayed :
      (xs : List ℕ) (t d : ℕ → B)
      → layout.header (d start) ≡ xs
      → IsBatch start size 0 xs
      → Logged start 0 xs t d
      → Replayed xs t d
  unfolding recovery
  recovery-Replayed xs t d e i l =
      let m = install_trans start 0 xs (rebooted d) in
      let w = install_trans-Installed start size 0 xs t (rebooted d) i l in
      record {
        cleared = layout.with_header [] (m.cache start);
        is_clear = cleared-header (m.cache start);
        writes =
            ap (λ h. (write_head layout start [] (install_trans start 0 h (rebooted d))).writes) e
            ∙ ap (λ ws. ws ++ (start, layout.with_header [] (m.cache start)) ∷ []) w.writes;
      }

  -- Recovery keeps the contents safe at every write, and leaves them settled.
  record Recovers (bs : List ℕ) (t d : ℕ → B) : Type 0 where
    always : Always (IsSafe layout start size bs t) d (recovery d)
    settled : IsSettled layout start size t (applied d (recovery d))

  IsSettled-Recovers :
      (bs : List ℕ) (t d : ℕ → B) → 0 < size → IsSettled layout start size t d → Recovers bs t d
  unfolding Always applied
  IsSettled-Recovers bs t d h s =
      let r =
        recovery-Replayed [] t d s.empty (record { data_blocks = tt; room = omega arith }) tt in
      let after = store-IsSettled layout start size t d r.cleared h r.is_clear s.home in
      record {
        always = subst (Always (IsSafe layout start size bs t) d) (sym r.writes) (inl s, inl after);
        settled = subst (λ ws. IsSettled layout start size t (applied d ws)) (sym r.writes) after;
      }

  IsPending-Recovers :
      (bs : List ℕ) (t d : ℕ → B)
      → IsHeader start size bs
      → IsPending layout start size bs t d
      → Recovers bs t d
  unfolding Always applied
  IsPending-Recovers bs t d i p =
      let r =
        recovery-Replayed bs t d p.named
          (record { data_blocks = i.data_blocks; room = omega (arith, i.room) }) p.logged in
      let room = i.room in
      let e = applied d (home_writes bs t) in
      let steps = home_writes-IsPending layout start size bs bs t d room i.data_blocks p in
      let after =
        store-IsSettled layout start size t e r.cleared (omega arith) r.is_clear
          (λ q o. home_writes-home layout start size bs t d q (p.home q o)) in
      let last : IsPending layout start size bs t e =
        Always-last (IsPending layout start size bs t) d (home_writes bs t) steps in
      record {
        always = subst (Always (IsSafe layout start size bs t) d) (sym r.writes) (
            Always-append (IsSafe layout start size bs t) d (home_writes bs t)
              ((start, r.cleared) ∷ [])
              (Always-map (IsPending layout start size bs t) (IsSafe layout start size bs t) d
                (home_writes bs t) (λ x y. inr y) steps)
              (inr last, inl after));
        settled =
            subst (λ ws. IsSettled layout start size t (applied d ws)) (sym r.writes)
              (subst (IsSettled layout start size t)
                (sym (applied-append d (home_writes bs t) ((start, r.cleared) ∷ []))) after);
      }

  IsSafe-Recovers :
      (bs : List ℕ) (t d : ℕ → B)
      → IsHeader start size bs
      → IsSafe layout start size bs t d
      → Recovers bs t d
  IsSafe-Recovers bs t d i (inl s) = IsSettled-Recovers bs t d (let r = i.room in omega arith) s
  IsSafe-Recovers bs t d i (inr p) = IsPending-Recovers bs t d i p

  Reboots-IsSafe :
      {bs : List ℕ} {t d e : ℕ → B}
      → IsHeader start size bs
      → Reboots d e
      → IsSafe layout start size bs t d
      → IsSafe layout start size bs t e
  Reboots-IsSafe i here s = s
  Reboots-IsSafe {bs = bs} {t = t} i (crash {e = e} k r) s =
      Always-take (IsSafe layout start size bs t) e (recovery e) k
        (IsSafe-Recovers bs t e i (Reboots-IsSafe i r s)).always

  -- Contents that are safe are what a recovery that is not cut off brings back.
  pub Reboots-IsSettled :
      {bs : List ℕ} {t d e : ℕ → B}
      → IsHeader start size bs
      → IsSafe layout start size bs t d
      → Reboots d e
      → IsSettled layout start size t (applied e (recovery e))
  Reboots-IsSettled {bs = bs} {t = t} {e = e} i s r =
      (IsSafe-Recovers bs t e i (Reboots-IsSafe i r s)).settled
