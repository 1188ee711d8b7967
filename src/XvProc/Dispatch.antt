-- ===== src/XvProc/Dispatch.antt =====
-- Dispatching a process, its way out of `sleep`, and `kill`.
use mephi_os_labs.Prelude.{
  ℕ, ◌-◌, ◌≤◌, ◌<◌, ◌≡◌, refl, ap, sym, ◌∙◌, subst, ◌≢◌, inl, inr, Bool, true, false, ◌&&◌, none,
  some, arith, ◌==◌, if◌then◌else◌, Option-cases,
}
use mathlib.Core.Option.{none-ne-some, some-injective}
use mephi_os_labs.XvProc.{
  ProcState, Proc, Table, nproc, put, is_sleeping, is_runnable, find_first, set_state, awake,
  chosen, scheduler, killed_proc, kill_found, kill,
}
use mephi_os_labs.XvProc.Scan.{find_first-some, put-same}
use mephi_os_labs.XvProc.System.{System, on_cpu, is_alive, IsSound}
use mephi_os_labs.XvProc.Invariant.{
  put-elim, Calm, put-Calm, Calm-IsFamily, Keeps, Keeps-IsNumbered, enters-IsRunning,
}
use mephi_os_labs.XvProc.Simple.{
  state-Calm, alive-Keeps, Keeps-self, running_alive, stays-IsSound, sleeping_alive,
}

runnable_idle :
    (s : ProcState) → is_runnable s ≡ true → (is_alive s ≡ true) × (s ≢ ProcState.running)
runnable_idle s h = (alive s h, λ e. busy s h e)
  where
    alive : (s : ProcState) → is_runnable s ≡ true → is_alive s ≡ true
    alive s h = ground arith

    busy : (s : ProcState) → is_runnable s ≡ true → s ≢ ProcState.running
    busy s h e = ground arith

-- `scheduler` picks a process that can run, and marks it.
pub scheduler-some :
    (i p : ℕ) (t t' : Table)
    → i ≤ nproc
    → scheduler i t ≡ some (p, t')
    → (is_runnable (t p).state ≡ true) × (p < nproc) × (set_state t p ProcState.running ≡ t')
unfolding scheduler
scheduler-some i p t t' hi h =
    elim (Option-cases (find_first (λ p. is_runnable (t p).state) (nproc - i) i)) [
      | inl e ↦ absurd (none-ne-some (p, t') (sym (ap (chosen t) e) ∙ h))
      | inr (k, e) ↦
          let r = find_first-some (λ p. is_runnable (t p).state) (nproc - i) i e in
          let s =
            some-injective (k, set_state t k ProcState.running) (p, t')
              (sym (ap (chosen t) e) ∙ h) in
          subst
            (λ x.
              (is_runnable (t x.0).state ≡ true)
              × (x.0 < nproc)
              × (set_state t x.0 ProcState.running ≡ x.1))
            s (r.0, omega (arith, r.1, r.2), refl)
    ]

pub dispatches-IsSound :
    (init c i p : ℕ) (s : System) (t : Table)
    → i ≤ nproc
    → scheduler i s.table ≡ some (p, t)
    → IsSound init s
    → IsSound init (record s { table = t; cpus = on_cpu s.cpus c (some p) })
dispatches-IsSound init c i p s t hi h sound =
    let r = scheduler-some i p s.table t hi h in
    let a = runnable_idle (s.table p).state r.0 in
    let p' = record (s.table p) { state = ProcState.running } in
    let here = put-same s.table p p p' refl in
    subst (λ t. IsSound init (record s { table = t; cpus = on_cpu s.cpus c (some p) })) r.2
      (record {
        family =
            Calm-IsFamily init s.table (put s.table p p')
              (λ x _.
                put-Calm s.table p p' (state-Calm p (s.table p) ProcState.running a.0 refl refl) x)
              sound.family;
        numbered =
            Keeps-IsNumbered s.nextpid s.table (put s.table p p')
              (λ x _.
                put-elim (λ q y. Keeps (s.table q) y) s.table p p'
                  (alive-Keeps (s.table p) p' a.0 refl) (λ q ne. Keeps-self (s.table q)) x)
              sound.numbered;
        running =
            enters-IsRunning s.cpus c p s.table (put s.table p p') r.1 a.1 (ap (λ y. y.state) here)
              (λ x _ e.
                put-elim
                  (λ q y. (s.table q).state ≡ ProcState.running → y.state ≡ ProcState.running)
                  s.table p p' (λ _. refl) (λ q ne e. e) x e)
              sound.running;
      })

-- One process changes, and goes on running if it did.
pub put-IsSound :
    (init i : ℕ) (s : System) (p' : Proc)
    → Calm i (s.table i) p'
    → Keeps (s.table i) p'
    → ((s.table i).state ≡ ProcState.running → p'.state ≡ ProcState.running)
    → IsSound init s
    → IsSound init (record s { table = put s.table i p' })
put-IsSound init i s p' c k r sound =
    stays-IsSound init s (put s.table i p') (λ x _. put-Calm s.table i p' c x)
      (λ x _.
        put-elim (λ q y. Keeps (s.table q) y) s.table i p' k (λ q ne. Keeps-self (s.table q)) x)
      (λ x _ e.
        put-elim (λ q y. (s.table q).state ≡ ProcState.running → y.state ≡ ProcState.running)
          s.table i p' r (λ q ne e. e) x e)
      sound

no_nap : (q : ℕ) (s : ProcState) → s ≡ ProcState.running → (is_sleeping s && false) ≡ false
no_nap q s h = ground arith

pub awakes-IsSound :
    (init c p : ℕ) (s : System)
    → s.cpus c ≡ some p
    → IsSound init s
    → IsSound init (record s { table = awake p s.table })
awakes-IsSound init c p s h i =
    let m = i.running.marked c p h in
    put-IsSound init p s (record (s.table p) { chan = none })
      (record {
        parent = refl;
        alive = refl;
        born = refl;
        zombie = refl;
        napping = λ _. no_nap p (s.table p).state m.1;
      })
      (alive-Keeps (s.table p) (record (s.table p) { chan = none })
        (running_alive (s.table p).state m.1) refl)
      (λ e. e) i

killed-elim :
    (P : Proc → Type 0) (p : Proc)
    → (is_sleeping p.state ≡ false → P (record p { killed = true }))
    → (is_sleeping p.state ≡ true → P (record p { killed = true; state = ProcState.runnable }))
    → P (killed_proc p)
killed-elim P p stay wake = choose (is_sleeping p.state) (λ e. e) (λ e. e)
  where
    choose :
        (b : Bool)
        → (b ≡ false → is_sleeping p.state ≡ false)
        → (b ≡ true → is_sleeping p.state ≡ true)
        → P (record p { killed = true; state = if b then ProcState.runnable else p.state })
    choose true hf ht = wake (ht refl)
    choose false hf ht = stay (hf refl)

pub kills-IsSound :
    (init pid : ℕ) (s : System)
    → IsSound init s
    → IsSound init (record s { table = (kill pid s.table).1 })
unfolding kill
kills-IsSound init pid s i =
    elim (Option-cases (find_first (λ i. (s.table i).pid == pid) nproc 0)) [
      | inl e ↦ subst (λ o. IsSound init (record s { table = (kill_found s.table o).1 })) (sym e) i
      | inr (k, e) ↦
          let p = s.table k in
          subst (λ o. IsSound init (record s { table = (kill_found s.table o).1 })) (sym e)
            (put-IsSound init k s (killed_proc p)
              (killed-elim (Calm k p) p
                (λ a. record {
                  parent = refl;
                  alive = refl;
                  born = refl;
                  zombie = refl;
                  napping = λ h. h;
                })
                (λ a.
                  let c = state-Calm k p ProcState.runnable (sleeping_alive p.state a) refl refl in
                  record {
                    parent = c.parent;
                    alive = c.alive;
                    born = c.born;
                    zombie = c.zombie;
                    napping = c.napping;
                  }))
              (killed-elim (Keeps p) p (λ a h. (h, refl))
                (λ a.
                  alive-Keeps p (record p { killed = true; state = ProcState.runnable })
                    (sleeping_alive p.state a) refl))
              (λ r.
                killed-elim (λ x. x.state ≡ ProcState.running) p (λ a. r)
                  (λ a. absurd (not_both p.state a r)))
              i)
    ]
  where
    not_both : (s : ProcState) → is_sleeping s ≡ true → s ≢ ProcState.running
    not_both s h e = ground arith
