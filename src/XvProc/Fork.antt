-- ===== src/XvProc/Fork.antt =====
-- The three parts of `fork` that change the table.
use mephi_os_labs.Prelude.{
  ℕ, ◌+◌, ◌%◌, ◌^◌, ◌<◌, ◌≡◌, refl, ap, sym, ◌∙◌, subst, ◌≢◌, inl, inr, Bool, true, false, ◌&&◌,
  some, arith, if◌then◌else◌, Option-cases,
}
use mephi_os_labs.XvProc.{
  ProcState, Chan, Proc, Table, nproc, put, is_unused, is_sleeping, is_zombie, chan_is, find_first,
  allocated, allocproc, fork_failed, fork_done,
}
use mephi_os_labs.XvProc.Scan.{find_first-some, put-other}
use mephi_os_labs.XvProc.System.{
  System, is_alive, is_born, naps, HasParent, IsFamily, IsNumbered, IsSound,
}
use mephi_os_labs.XvProc.Invariant.{
  put-elim, Calm, put-Calm, Calm-IsFamily, Keeps, Keeps-IsNumbered, stays-IsRunning,
}
use mephi_os_labs.XvProc.Simple.{unused-lem, Keeps-self, running_alive}
use mephi_os_labs.XvProc.Dispatch.{put-IsSound}

pub true≢false : true ≢ false
true≢false h = ground arith

-- States in which a process has not been started.
record IsIdle (s : ProcState) : Type 0 where
  alive : is_alive s ≡ false
  born : is_born s ≡ false
  zombie : is_zombie s ≡ false
  sleeping : is_sleeping s ≡ false
  running : s ≢ ProcState.running

unused-IsIdle : IsIdle ProcState.unused
unused-IsIdle = record {
  alive = refl;
  born = refl;
  zombie = refl;
  sleeping = refl;
  running = λ e. ground arith;
}

embryo-IsIdle : IsIdle ProcState.embryo
embryo-IsIdle = record {
  alive = refl;
  born = refl;
  zombie = refl;
  sleeping = refl;
  running = λ e. ground arith;
}

idle-Calm :
    (q : ℕ) (p p' : Proc) → IsIdle p.state → IsIdle p'.state → p'.parent ≡ p.parent → Calm q p p'
idle-Calm q p p' a b e = record {
  parent = e;
  alive = b.alive ∙ sym a.alive;
  born = b.born ∙ sym a.born;
  zombie = b.zombie ∙ sym a.zombie;
  napping = λ _. ap (λ x. x && chan_is p'.chan (Chan.proc q)) b.sleeping;
}

pub fork_fails-IsSound :
    (init np : ℕ) (s : System)
    → (s.table np).state ≡ ProcState.embryo
    → IsSound init s
    → IsSound init (record s { table = fork_failed np s.table })
fork_fails-IsSound init np s e i =
    let idle = subst IsIdle (sym e) embryo-IsIdle in
    put-IsSound init np s (record (s.table np) { state = ProcState.unused })
      (idle-Calm np (s.table np) (record (s.table np) { state = ProcState.unused }) idle
        unused-IsIdle refl)
      (λ h. absurd (true≢false h)) (λ h. absurd (idle.running h)) i

new_state : Bool → ProcState
new_state page = if page then ProcState.embryo else ProcState.unused

new-IsIdle : (page : Bool) → IsIdle (new_state page)
unfolding new_state
new-IsIdle true = embryo-IsIdle
new-IsIdle false = unused-IsIdle

-- A pid that no process has had yet.
next-IsNumbered :
    (n i : ℕ) (t : Table) (s : ProcState)
    → is_unused (t i).state ≡ true
    → IsNumbered n t
    → IsNumbered (n + 1) (put t i (record (t i) { state = s; pid = n }))
next-IsNumbered n i t s u num =
    let p' = record (t i) { state = s; pid = n } in
    record {
      differ = λ q r hq hr ne.
          put-elim
            (λ q y.
              q < nproc
              → q ≢ r
              → is_unused y.state ≡ false
              → is_unused (put t i p' r).state ≡ false
              → y.pid ≢ (put t i p' r).pid)
            t i p'
            (λ hi ni _.
              subst (λ y. is_unused y.state ≡ false → n ≢ y.pid)
                (sym (put-other t i r p' (λ e. ni (sym e))))
                (λ ur e. let f = num.fresh r hr ur in omega arith))
            (λ q nq hq ne uq.
              put-elim (λ r y. r < nproc → q ≢ r → is_unused y.state ≡ false → (t q).pid ≢ y.pid) t
                i p' (λ _ _ _ e. let f = num.fresh q hq uq in omega arith)
                (λ r nr hr ne ur. num.differ q r hq hr ne uq ur) r hr ne)
            q hq ne;
      fresh = λ q hq.
          put-elim (λ q y. q < nproc → is_unused y.state ≡ false → y.pid < n + 1) t i p'
            (λ _ _. omega arith) (λ q nq hq uq. let f = num.fresh q hq uq in omega arith) q hq;
    }

allocated-IsSound :
    (init i : ℕ) (page : Bool) (s : System)
    → s.nextpid + 1 < 2 ^ 32
    → is_unused (s.table i).state ≡ true
    → IsSound init s
    → IsSound init (record s {
      table = (allocated page s.nextpid s.table (some i)).2;
      nextpid = (allocated page s.nextpid s.table (some i)).1;
    })
unfolding new_state
allocated-IsSound init i page s word u sound =
    let p' = record (s.table i) { state = new_state page; pid = s.nextpid } in
    let idle = subst IsIdle (sym (unused-lem (s.table i).state u)) unused-IsIdle in
    let next : s.nextpid + 1 ≡ (s.nextpid + 1) % 2 ^ 32 = omega arith in
    record {
      family =
          Calm-IsFamily init s.table (put s.table i p')
            (λ x _.
              put-Calm s.table i p' (idle-Calm i (s.table i) p' idle (new-IsIdle page) refl) x)
            sound.family;
      numbered =
          subst (λ n. IsNumbered n (put s.table i p')) next
            (next-IsNumbered s.nextpid i s.table (new_state page) u sound.numbered);
      running =
          stays-IsRunning s.cpus s.table (put s.table i p')
            (λ x _ e.
              put-elim (λ q y. (s.table q).state ≡ ProcState.running → y.state ≡ ProcState.running)
                s.table i p' (λ h. absurd (idle.running h)) (λ q ne h. h) x e)
            sound.running;
    }

pub allocates-IsSound :
    (init : ℕ) (page : Bool) (s : System)
    → s.nextpid + 1 < 2 ^ 32
    → IsSound init s
    → IsSound init (record s {
      table = (allocproc page s.nextpid s.table).2;
      nextpid = (allocproc page s.nextpid s.table).1;
    })
unfolding allocproc
allocates-IsSound init page s word i =
    elim (Option-cases (find_first (λ i. is_unused (s.table i).state) nproc 0)) [
      | inl e ↦
          subst
            (λ o. IsSound init (record s {
              table = (allocated page s.nextpid s.table o).2;
              nextpid = (allocated page s.nextpid s.table o).1;
            }))
            (sym e) i
      | inr (k, e) ↦
          subst
            (λ o. IsSound init (record s {
              table = (allocated page s.nextpid s.table o).2;
              nextpid = (allocated page s.nextpid s.table o).1;
            }))
            (sym e)
            (allocated-IsSound init k page s word
              (find_first-some (λ i. is_unused (s.table i).state) nproc 0 e).0 i)
    ]

pub made :
    (t : Table) (q : ℕ)
    → (parent : ℕ) × ((t q).parent ≡ some parent)
      × (parent < nproc)
      × (parent ≢ q)
      × (is_alive (t parent).state ≡ true)
    → HasParent t q
made t q h = record { parent = h.0; is_parent = h.1; in_table = h.2; another = h.3; alive = h.4 }

-- The child gets a parent that is alive.
fork_done-IsFamily :
    (init cur np : ℕ) (t : Table)
    → cur < nproc
    → is_alive (t cur).state ≡ true
    → (t np).state ≡ ProcState.embryo
    → IsFamily init t
    → IsFamily init (fork_done cur np t)
fork_done-IsFamily init cur np t hc ac e f =
    let p' = record (t np) { parent = some cur; state = ProcState.runnable } in
    let alive = λ (x : ℕ).
      put-elim (λ q y. is_alive (t q).state ≡ true → is_alive y.state ≡ true) t np p' (λ _. refl)
        (λ q ne h. h) x in
    let cur≢np : cur ≢ np =
      λ x. true≢false (sym ac ∙ ap (λ k. is_alive (t k).state) x ∙ ap is_alive e) in
    record {
      root = f.root;
      root_alive = alive init f.root_alive;
      kin = λ q hq ne b. made (put t np p') q (
          put-elim
            (λ q y.
              q < nproc
              → q ≢ init
              → is_born y.state ≡ true
              → (parent : ℕ) × (y.parent ≡ some parent)
                × (parent < nproc)
                × (parent ≢ q)
                × (is_alive (put t np p' parent).state ≡ true))
            t np p' (λ _ _ _. (cur, refl, hc, cur≢np, alive cur ac))
            (λ q nq hq ne b.
              let h = f.kin q hq ne b in
              (h.parent, h.is_parent, h.in_table, h.another, alive h.parent h.alive))
            q hq ne b);
      nap = λ q r hq hr.
          put-elim
            (λ r y.
              r < nproc
              → y.parent ≡ some q
              → is_zombie y.state ≡ true
              → naps q (put t np p' q) ≡ false)
            t np p' (λ _ _ z. absurd (true≢false (sym z)))
            (λ r nr hr p z.
              put-elim (λ x y. naps x (t x) ≡ false → naps x y ≡ false) t np p' (λ _. refl)
                (λ x ne h. h) q (f.nap q r hq hr p z))
            r hr;
    }

pub forks-IsSound :
    (init c cur np : ℕ) (s : System)
    → s.cpus c ≡ some cur
    → (s.table np).state ≡ ProcState.embryo
    → IsSound init s
    → IsSound init (record s { table = fork_done cur np s.table })
forks-IsSound init c cur np s h e i =
    let m = i.running.marked c cur h in
    let p' = record (s.table np) { parent = some cur; state = ProcState.runnable } in
    record {
      family =
          fork_done-IsFamily init cur np s.table m.0 (running_alive (s.table cur).state m.1) e
            i.family;
      numbered =
          Keeps-IsNumbered s.nextpid s.table (put s.table np p')
            (λ x _.
              put-elim (λ q y. Keeps (s.table q) y) s.table np p' (λ _. (ap is_unused e, refl))
                (λ q ne. Keeps-self (s.table q)) x)
            i.numbered;
      running =
          stays-IsRunning s.cpus s.table (put s.table np p')
            (λ x _ r.
              put-elim (λ q y. (s.table q).state ≡ ProcState.running → y.state ≡ ProcState.running)
                s.table np p' (λ a. absurd (embryo-IsIdle.running (sym e ∙ a))) (λ q ne a. a) x r)
            i.running;
    }
