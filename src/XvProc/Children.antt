-- ===== src/XvProc/Children.antt =====
-- A round of `wait`.
use mephi_os_labs.Prelude.{
  ℕ, ◌<◌, ◌≡◌, refl, ap, sym, ◌∙◌, ◌≢◌, Bool, true, false, not, ◌&&◌, ◌||◌, Option, none, some,
  arith, ◌==◌, if◌then◌else◌, ==_refl,
}
use mephi_os_labs.XvProc.{
  ProcState, Chan, Table, nproc, put, is_zombie, find_first, sleep, freed, Waited, waited, wait,
  is_child, has_one, parent_is,
}
use mephi_os_labs.XvProc.Scan.{find_first-some, find_first-none, put-other}
use mephi_os_labs.XvProc.System.{System, behind_wait, is_alive, is_born, naps, IsFamily, IsSound}
use mephi_os_labs.XvProc.Invariant.{
  put-elim, Keeps, Keeps-IsNumbered, stays-IsRunning, leaves-IsRunning,
}
use mephi_os_labs.XvProc.Simple.{alive-Keeps, Keeps-self, running_alive}
use mephi_os_labs.XvProc.Fork.{true≢false, made}

zombie-lem : (s : ProcState) → is_zombie s ≡ true → s ≡ ProcState.zombie
zombie-lem s h = ground arith

and-true : (a b : Bool) → (a && b) ≡ true → (a ≡ true) × (b ≡ true)
and-true a b h = ground arith

zombie_idle : ProcState.zombie ≢ ProcState.running
zombie_idle e = ground arith

-- A child that is reaped is no parent and not init.
reaped-IsFamily :
    (init i : ℕ) (t : Table)
    → (t i).state ≡ ProcState.zombie
    → IsFamily init t
    → IsFamily init (put t i (freed (t i)))
reaped-IsFamily init i t z f =
    let p' = freed (t i) in
    let alive = λ (x : ℕ).
      put-elim (λ q y. is_alive (t q).state ≡ true → is_alive y.state ≡ true) t i p'
        (λ h. absurd (true≢false (sym h ∙ ap is_alive z))) (λ q ne h. h) x in
    record {
      root = f.root;
      root_alive = alive init f.root_alive;
      kin = λ q hq ne b. made (put t i p') q (
          put-elim
            (λ q y.
              q < nproc
              → q ≢ init
              → is_born y.state ≡ true
              → (parent : ℕ) × (y.parent ≡ some parent)
                × (parent < nproc)
                × (parent ≢ q)
                × (is_alive (put t i p' parent).state ≡ true))
            t i p' (λ _ _ b. absurd (true≢false (sym b)))
            (λ q nq hq ne b.
              let h = f.kin q hq ne b in
              (h.parent, h.is_parent, h.in_table, h.another, alive h.parent h.alive))
            q hq ne b);
      nap = λ q r hq hr.
          put-elim
            (λ r y.
              r < nproc
              → y.parent ≡ some q
              → is_zombie y.state ≡ true
              → naps q (put t i p' q) ≡ false)
            t i p' (λ _ _ z. absurd (true≢false (sym z)))
            (λ r nr hr p z.
              put-elim (λ x y. naps x (t x) ≡ false → naps x y ≡ false) t i p' (λ _. refl)
                (λ x ne h. h) q (f.nap q r hq hr p z))
            r hr;
    }

-- A process without children to reap may sleep in `wait`.
napping-IsFamily :
    (init cur : ℕ) (t : Table)
    → (t cur).state ≡ ProcState.running
    → ((r : ℕ) → r < nproc → (is_child t cur r && is_zombie (t r).state) ≡ false)
    → IsFamily init t
    → IsFamily init (sleep cur (Chan.proc cur) t)
napping-IsFamily init cur t run childless f =
    let p' = record (t cur) { chan = some (Chan.proc cur); state = ProcState.sleeping } in
    let alive = λ (x : ℕ).
      put-elim (λ q y. is_alive (t q).state ≡ true → is_alive y.state ≡ true) t cur p' (λ h. refl)
        (λ q ne h. h) x in
    record {
      root = f.root;
      root_alive = alive init f.root_alive;
      kin = λ q hq ne b. made (put t cur p') q (
          put-elim
            (λ q y.
              q < nproc
              → q ≢ init
              → is_born y.state ≡ true
              → (parent : ℕ) × (y.parent ≡ some parent)
                × (parent < nproc)
                × (parent ≢ q)
                × (is_alive (put t cur p' parent).state ≡ true))
            t cur p'
            (λ hq ne _.
              let h = f.kin cur hq ne (ap is_born run) in
              (h.parent, h.is_parent, h.in_table, h.another, alive h.parent h.alive))
            (λ q nq hq ne b.
              let h = f.kin q hq ne b in
              (h.parent, h.is_parent, h.in_table, h.another, alive h.parent h.alive))
            q hq ne b);
      nap = λ q r hq hr.
          put-elim
            (λ r y.
              r < nproc
              → y.parent ≡ some q
              → is_zombie y.state ≡ true
              → naps q (put t cur p' q) ≡ false)
            t cur p' (λ _ _ z. absurd (true≢false (sym z)))
            (λ r nr hr p z.
              put-elim (λ x y. (t r).parent ≡ some x → naps x (t x) ≡ false → naps x y ≡ false) t
                cur p' (λ e _. absurd (true≢false (sym (child r e z) ∙ childless r hr)))
                (λ x ne e h. h) q p (f.nap q r hq hr p z))
            r hr;
    }
  where
    child :
        (r : ℕ)
        → (t r).parent ≡ some cur
        → is_zombie (t r).state ≡ true
        → (is_child t cur r && is_zombie (t r).state) ≡ true
    child r e z =
        ap (λ o. parent_is o cur && is_zombie (t r).state) e
        ∙ ap (λ b. (cur == cur) && b) z
        ∙ ap (λ b. b && true) (==_refl cur)

-- The result of a round, from what the search has found.
Finds : Table → ℕ → Option ℕ → Type 0
Finds t cur none = (r : ℕ) → r < nproc → (is_child t cur r && is_zombie (t r).state) ≡ false
Finds t cur (some i) = (t i).state ≡ ProcState.zombie

waited-IsSound :
    (init c cur : ℕ) (s : System) (o : Option ℕ) (kids : Bool)
    → s.cpus c ≡ some cur
    → Finds s.table cur o
    → IsSound init s
    → IsSound init (record s {
      table = (waited cur s.table o kids).1;
      cpus = behind_wait (waited cur s.table o kids).0 s.cpus c;
    })
unfolding Finds
waited-IsSound init c cur s (some i) kids h z sound =
    let p' = freed (s.table i) in
    record {
      family = reaped-IsFamily init i s.table z sound.family;
      numbered =
          Keeps-IsNumbered s.nextpid s.table (put s.table i p')
            (λ x _.
              put-elim (λ q y. Keeps (s.table q) y) s.table i p' (λ u. absurd (true≢false u))
                (λ q ne. Keeps-self (s.table q)) x)
            sound.numbered;
      running =
          stays-IsRunning s.cpus s.table (put s.table i p')
            (λ x _ r.
              put-elim (λ q y. (s.table q).state ≡ ProcState.running → y.state ≡ ProcState.running)
                s.table i p' (λ a. absurd (zombie_idle (sym z ∙ a))) (λ q ne a. a) x r)
            sound.running;
    }
waited-IsSound init c cur s none kids h z sound = choose (not kids || (s.table cur).killed)
  where
    result : Bool → Waited × Table
    result b =
        if b then (Waited.failed, s.table) else (Waited.asleep, sleep cur (Chan.proc cur) s.table)

    choose :
        (b : Bool)
        → IsSound init (record s { table = (result b).1; cpus = behind_wait (result b).0 s.cpus c })
    choose true = sound
    choose false =
        let m = sound.running.marked c cur h in
        let p' = record (s.table cur) { chan = some (Chan.proc cur); state = ProcState.sleeping } in
        record {
          family = napping-IsFamily init cur s.table m.1 z sound.family;
          numbered =
              Keeps-IsNumbered s.nextpid s.table (put s.table cur p')
                (λ x _.
                  put-elim (λ q y. Keeps (s.table q) y) s.table cur p'
                    (alive-Keeps (s.table cur) p' (running_alive (s.table cur).state m.1) refl)
                    (λ q ne. Keeps-self (s.table q)) x)
                sound.numbered;
          running =
              leaves-IsRunning s.cpus c cur s.table (put s.table cur p') h
                (λ x _ ne r. ap (λ y. y.state) (put-other s.table cur x p' ne) ∙ r) sound.running;
        }

pub waits-IsSound :
    (init c cur : ℕ) (s : System)
    → s.cpus c ≡ some cur
    → IsSound init s
    → IsSound init (record s {
      table = (wait cur s.table).1;
      cpus = behind_wait (wait cur s.table).0 s.cpus c;
    })
unfolding wait Finds
waits-IsSound init c cur s h i =
    waited-IsSound init c cur s (find_first f nproc 0)
      (has_one (find_first (is_child s.table cur) nproc 0)) h (found (find_first f nproc 0) refl) i
  where
    f : ℕ → Bool
    f r = is_child s.table cur r && is_zombie (s.table r).state

    found : (o : Option ℕ) → find_first f nproc 0 ≡ o → Finds s.table cur o
    found none e = λ r hr. find_first-none f nproc 0 r e (omega arith) hr
    found (some k) e =
        zombie-lem (s.table k).state
          (and-true (is_child s.table cur k) (is_zombie (s.table k).state)
            (find_first-some f nproc 0 e).0).1
