-- ===== src/XvProc/Exited.antt =====
-- `exit` as a whole.
use mephi_os_labs.Prelude.{
  ℕ, ◌<◌, ◌≡◌, refl, ap, sym, ◌∙◌, subst, ◌≢◌, ◌⊎◌, inl, inr, true, false, Option, none, some,
  arith, ◌==◌, if◌then◌else◌, Bool-cases, guard-some, ==_iff, ==_refl,
}
use mathlib.Core.Option.{some-injective}
use mephi_os_labs.XvProc.{
  ProcState, Proc, Table, nproc, put, is_zombie, set_state, parent_is, adopt, wake_parent, exit,
  for_each,
}
use mephi_os_labs.XvProc.Scan.{put-other}
use mephi_os_labs.XvProc.System.{System, on_cpu, is_alive, is_born, naps, IsFamily, IsSound}
use mephi_os_labs.XvProc.Invariant.{put-elim, Keeps, Keeps-IsNumbered, leaves-IsRunning}
use mephi_os_labs.XvProc.Simple.{alive-lem, running_alive}
use mephi_os_labs.XvProc.Fork.{true≢false, made}
use mephi_os_labs.XvProc.Exit.{Near, Adopted, for_each-Adopted, Woken, wake_parent-Woken}

-- What `exit` has done before the process becomes a zombie.
module _ (init cur : ℕ) (t : Table) (f : IsFamily init t) (hc : cur < nproc) (ne : cur ≢ init)
    (run : (t cur).state ≡ ProcState.running) where
  abbrev pub behind_wake : Table
  behind_wake = wake_parent (t cur).parent t

  abbrev pub behind_loop : Table
  behind_loop = for_each nproc (adopt cur init) behind_wake

  Woken-parent : Woken t behind_wake (t cur).parent
  Woken-parent = wake_parent-Woken (t cur).parent t

  adopted : Adopted cur init nproc behind_wake behind_loop
  adopted = for_each-Adopted cur init nproc behind_wake (omega arith) f.root

  pub near : (q : ℕ) → q < nproc → Near q (t q) (behind_loop q)
  near q hq =
      let a = Woken-parent.near q hq in
      let b = adopted.near q hq in
      record {
        alive = b.alive ∙ a.alive;
        born = b.born ∙ a.born;
        zombie = b.zombie ∙ a.zombie;
        napping = λ h. b.napping (a.napping h);
        keeps = λ u. let x = b.keeps u in let y = a.keeps x.0 in (y.0, x.1 ∙ y.1);
        runs = λ h. b.runs (a.runs h);
      }

  -- The parent of each process is the one it had, or init if that was the process that ends.
  parent_behind :
      (q : ℕ)
      → q < nproc
      → (behind_loop q).parent ≡ (if parent_is (t q).parent cur then some init else (t q).parent)
  parent_behind q hq =
      let e = Woken-parent.parents q hq in
      adopted.done q hq hq ∙ ap (λ o. if parent_is o cur then some init else o) e

  parent_is-lem : (o : Option ℕ) (p : ℕ) → o ≡ some p → p ≢ cur → parent_is o cur ≡ false
  parent_is-lem o p e h = ap (λ o. parent_is o cur) e ∙ differ p h
    where
      differ : (p : ℕ) → p ≢ cur → (p == cur) ≡ false
      differ p h = ground arith

  parent_is-true : (o : Option ℕ) → parent_is o cur ≡ true → o ≡ some cur
  parent_is-true none h = ground arith
  parent_is-true (some p) h = ap some ((==_iff p cur).0 h)

  -- A process that was started has another parent that is alive and does not end.
  kin_behind :
      (q : ℕ)
      → q < nproc
      → q ≢ init
      → is_born (t q).state ≡ true
      → (parent : ℕ) × ((behind_loop q).parent ≡ some parent)
        × (parent < nproc)
        × (parent ≢ q)
        × (is_alive (behind_loop parent).state ≡ true)
        × (parent ≢ cur)
  kin_behind q hq nq b = elim (Bool-cases (parent_is (t q).parent cur)) [
    | inl e ↦ (
      init,
      parent_behind q hq ∙ ap (λ b. if b then some init else (t q).parent) e,
      f.root,
      (λ x. nq (sym x)),
      (near init f.root).alive ∙ f.root_alive,
      (λ x. ne (sym x)),
    )
    | inr e ↦
        let h = f.kin q hq nq b in
        (
          h.parent,
          parent_behind q hq ∙ ap (λ b. if b then some init else (t q).parent) e ∙ h.is_parent,
          h.in_table,
          h.another,
          (near h.parent h.in_table).alive ∙ h.alive,
          (λ x.
              true≢false
                (sym (ap (λ o. parent_is o cur) (h.is_parent ∙ ap some x) ∙ ==_refl cur) ∙ e)),
        )
  ]

  -- No parent of a zombie, or of the process that ends, sleeps in `wait`.
  nap_behind :
      (q r : ℕ)
      → q < nproc
      → r < nproc
      → (behind_loop r).parent ≡ some q
      → (is_zombie (t r).state ≡ true) ⊎ (r ≡ cur)
      → naps q (behind_loop q) ≡ false
  nap_behind q r hq hr p (inl z) = elim (Bool-cases (parent_is (t r).parent cur)) [
    | inl e ↦
        let s =
          some-injective init q
            (sym (parent_behind r hr ∙ ap (λ b. if b then some init else (t r).parent) e) ∙ p) in
        subst (λ x. naps x (behind_loop x) ≡ false) s
          (adopted.wakes r hr hr (ap (λ o. parent_is o cur) (Woken-parent.parents r hr) ∙ e)
            ((Woken-parent.near r hr).zombie ∙ z))
    | inr e ↦
        let same =
          sym (parent_behind r hr ∙ ap (λ b. if b then some init else (t r).parent) e) ∙ p in
        (near q hq).napping (f.nap q r hq hr same z)
  ]
  nap_behind q r hq hr p (inr s) =
      let h = f.kin cur hc ne (ap is_born run) in
      let own = parent_is-lem (t cur).parent h.parent h.is_parent h.another in
      let same : (t cur).parent ≡ some q =
        sym (parent_behind cur hc ∙ ap (λ b. if b then some init else (t cur).parent) own)
        ∙ subst (λ x. (behind_loop x).parent ≡ some q) s p in
      (adopted.near q hq).napping (Woken-parent.awake q same hq)

  abbrev zombie_at : Proc
  zombie_at = record (behind_loop cur) { state = ProcState.zombie }

  pub exited-IsFamily : IsFamily init (set_state behind_loop cur ProcState.zombie)
  exited-IsFamily =
      let t3 = put behind_loop cur zombie_at in
      let alive = λ (x : ℕ) (h : x ≢ cur) (a : is_alive (behind_loop x).state ≡ true).
        subst (λ y. is_alive y.state ≡ true) (sym (put-other behind_loop cur x zombie_at h)) a in
      record {
        root = f.root;
        root_alive = alive init (λ e. ne (sym e)) ((near init f.root).alive ∙ f.root_alive);
        kin = λ q hq nq b. made t3 q (
            put-elim
              (λ q y.
                q < nproc
                → q ≢ init
                → is_born y.state ≡ true
                → (parent : ℕ) × (y.parent ≡ some parent)
                  × (parent < nproc)
                  × (parent ≢ q)
                  × (is_alive (t3 parent).state ≡ true))
              behind_loop cur zombie_at
              (λ hq nq _.
                let h = kin_behind cur hq nq (ap is_born run) in
                (h.0, h.1, h.2, h.3, alive h.0 h.5 h.4))
              (λ q nc hq nq b.
                let h = kin_behind q hq nq (sym (near q hq).born ∙ b) in
                (h.0, h.1, h.2, h.3, alive h.0 h.5 h.4))
              q hq nq b);
        nap = λ q r hq hr.
            put-elim
              (λ r y.
                r < nproc → y.parent ≡ some q → is_zombie y.state ≡ true → naps q (t3 q) ≡ false)
              behind_loop cur zombie_at (λ hr p _. awake q (nap_behind q cur hq hr p (inr refl)))
              (λ r nr hr p z. awake q (nap_behind q r hq hr p (inl (sym (near r hr).zombie ∙ z)))) r
              hr;
      }
    where
      awake :
          (q : ℕ)
          → naps q (behind_loop q) ≡ false
          → naps q (put behind_loop cur zombie_at q) ≡ false
      awake q h =
          put-elim (λ x y. naps x (behind_loop x) ≡ false → naps x y ≡ false) behind_loop cur
            zombie_at (λ _. refl) (λ x n h. h) q h

pub exits-IsSound :
    (init c cur : ℕ) (s : System) (t : Table)
    → s.cpus c ≡ some cur
    → exit init cur s.table ≡ some t
    → IsSound init s
    → IsSound init (record s { table = t; cpus = on_cpu s.cpus c none })
unfolding exit
exits-IsSound init c cur s t h e i =
    let m = i.running.marked c cur h in
    let loop = for_each nproc (adopt cur init) (wake_parent (s.table cur).parent s.table) in
    let g = guard-some (cur == init) (set_state loop cur ProcState.zombie) t e in
    let ne = not_equal cur init g.0 in
    let z = record (loop cur) { state = ProcState.zombie } in
    let n = near init cur s.table i.family m.0 ne m.1 in
    subst (λ t. IsSound init (record s { table = t; cpus = on_cpu s.cpus c none })) g.1
      (record {
        family = exited-IsFamily init cur s.table i.family m.0 ne m.1;
        numbered =
            Keeps-IsNumbered s.nextpid s.table (put loop cur z)
              (λ x hx.
                put-elim (λ q y. q < nproc → Keeps (s.table q) y) loop cur z
                  (λ hq _.
                    let a = running_alive (s.table cur).state m.1 in
                    let k =
                      (n cur hq).keeps ((alive-lem (loop cur).state ((n cur hq).alive ∙ a)).2) in
                    k)
                  (λ q nq hq. (n q hq).keeps) x hx)
              i.numbered;
        running =
            leaves-IsRunning s.cpus c cur s.table (put loop cur z) h
              (λ x hx nx r. ap (λ y. y.state) (put-other loop cur x z nx) ∙ (n x hx).runs r)
              i.running;
      })
  where
    not_equal : (q i : ℕ) → (q == i) ≡ false → q ≢ i
    not_equal q i h = ground arith
