-- ===== src/XvProc/Simple.antt =====
-- The steps that change one process and leave the process tree as it is.
use mephi_os_labs.Prelude.{
  ℕ, ◌<◌, ◌≡◌, refl, ap, sym, ◌∙◌, subst, ◌≢◌, Bool, true, false, ◌&&◌, none, some, arith,
  if◌then◌else◌,
}
use mephi_os_labs.XvProc.{
  ProcState, Chan, Proc, Table, nproc, put, is_unused, is_sleeping, is_runnable, is_zombie, chan_is,
  woken, wakeup1, sleep, yield,
}
use mephi_os_labs.XvProc.Scan.{put-other, wakeup1-at}
use mephi_os_labs.XvProc.System.{System, on_cpu, is_alive, is_born, IsSound}
use mephi_os_labs.XvProc.Invariant.{
  put-elim, Calm, Calm-refl, put-Calm, Calm-IsFamily, Keeps, Keeps-IsNumbered, stays-IsRunning,
  leaves-IsRunning,
}

-- What the tests of a state say of each other.
pub alive-lem :
    (s : ProcState)
    → is_alive s ≡ true
    → (is_born s ≡ true) × (is_zombie s ≡ false) × (is_unused s ≡ false)
alive-lem ProcState.sleeping h = (refl, refl, refl)
alive-lem ProcState.runnable h = (refl, refl, refl)
alive-lem ProcState.running h = (refl, refl, refl)
alive-lem ProcState.unused h = ground arith
alive-lem ProcState.embryo h = ground arith
alive-lem ProcState.zombie h = ground arith

pub unused-lem : (s : ProcState) → is_unused s ≡ true → s ≡ ProcState.unused
unused-lem s h = ground arith

pub runnable-lem : (s : ProcState) → is_runnable s ≡ true → s ≡ ProcState.runnable
runnable-lem s h = ground arith

sleeping-lem : (s : ProcState) → is_sleeping s ≡ true → s ≡ ProcState.sleeping
sleeping-lem s h = ground arith

-- A process that is alive and stays so, awake.
pub state-Calm :
    (q : ℕ) (p : Proc) (s : ProcState)
    → is_alive p.state ≡ true
    → is_alive s ≡ true
    → is_sleeping s ≡ false
    → Calm q p (record p { state = s })
state-Calm q p s hp hs ha =
    let a = alive-lem p.state hp in
    let b = alive-lem s hs in
    record {
      parent = refl;
      alive = hs ∙ sym hp;
      born = b.0 ∙ sym a.0;
      zombie = b.1 ∙ sym a.1;
      napping = λ _. ap (λ x. x && chan_is p.chan (Chan.proc q)) ha;
    }

pub alive-Keeps : (p p' : Proc) → is_alive p.state ≡ true → p'.pid ≡ p.pid → Keeps p p'
alive-Keeps p p' h e = λ _. ((alive-lem p.state h).2, e)

pub Keeps-self : (p : Proc) → Keeps p p
Keeps-self p = λ h. (h, refl)

pub running_alive : (s : ProcState) → s ≡ ProcState.running → is_alive s ≡ true
running_alive s h = ap is_alive h

-- The process of a processor changes to a state in which it does not run, alive and not in `wait`.
pub leaves-IsSound :
    (init c p : ℕ) (s : System) (p' : Proc)
    → s.cpus c ≡ some p
    → IsSound init s
    → Calm p (s.table p) p'
    → p'.pid ≡ (s.table p).pid
    → IsSound init (record s { table = put s.table p p'; cpus = on_cpu s.cpus c none })
leaves-IsSound init c p s p' h i calm pid =
    let m = i.running.marked c p h in
    record {
      family =
          Calm-IsFamily init s.table (put s.table p p') (λ x _. put-Calm s.table p p' calm x)
            i.family;
      numbered =
          Keeps-IsNumbered s.nextpid s.table (put s.table p p')
            (λ x _.
              put-elim (λ q y. Keeps (s.table q) y) s.table p p'
                (alive-Keeps (s.table p) p' (running_alive (s.table p).state m.1) pid)
                (λ q ne. Keeps-self (s.table q)) x)
            i.numbered;
      running =
          leaves-IsRunning s.cpus c p s.table (put s.table p p') h
            (λ x _ ne r. ap (λ y. y.state) (put-other s.table p x p' ne) ∙ r) i.running;
    }

pub yields-IsSound :
    (init c p : ℕ) (s : System)
    → s.cpus c ≡ some p
    → IsSound init s
    → IsSound init (record s { table = yield p s.table; cpus = on_cpu s.cpus c none })
yields-IsSound init c p s h i =
    leaves-IsSound init c p s (record (s.table p) { state = ProcState.runnable }) h i
      (state-Calm p (s.table p) ProcState.runnable
        (running_alive (s.table p).state (i.running.marked c p h).1) refl refl)
      refl

pub sleeps-IsSound :
    (init c p k : ℕ) (s : System)
    → s.cpus c ≡ some p
    → IsSound init s
    → IsSound init
        (record s { table = sleep p (Chan.other k) s.table; cpus = on_cpu s.cpus c none })
sleeps-IsSound init c p k s h i =
    let a = running_alive (s.table p).state (i.running.marked c p h).1 in
    let b = alive-lem (s.table p).state a in
    leaves-IsSound init c p s
      (record (s.table p) { chan = some (Chan.other k); state = ProcState.sleeping }) h i
      (record {
        parent = refl;
        alive = sym a;
        born = sym b.0;
        zombie = sym b.1;
        napping = λ _. refl;
      })
      refl

-- A change of any processes that keeps who runs.
pub stays-IsSound :
    (init : ℕ) (s : System) (t : Table)
    → ((x : ℕ) → x < nproc → Calm x (s.table x) (t x))
    → ((x : ℕ) → x < nproc → Keeps (s.table x) (t x))
    → ((x : ℕ)
        → x < nproc
        → (s.table x).state ≡ ProcState.running
        → (t x).state ≡ ProcState.running)
    → IsSound init s
    → IsSound init (record s { table = t })
stays-IsSound init s t c k r i = record {
  family = Calm-IsFamily init s.table t c i.family;
  numbered = Keeps-IsNumbered s.nextpid s.table t k i.numbered;
  running = stays-IsRunning s.cpus s.table t r i.running;
}

-- A process that `wakeup1` looks at is woken if it sleeps, or stays as it is.
pub woken-elim :
    (P : Proc → Type 0) (chan : Chan) (p : Proc)
    → P p
    → (is_sleeping p.state ≡ true → P (record p { state = ProcState.runnable }))
    → P (woken chan p)
woken-elim P chan p stay wake =
    choose (is_sleeping p.state && chan_is p.chan chan) (λ e. first _ _ e)
  where
    first : (a b : Bool) → (a && b) ≡ true → a ≡ true
    first a b h = ground arith

    choose :
        (b : Bool)
        → (b ≡ true → is_sleeping p.state ≡ true)
        → P (if b then record p { state = ProcState.runnable } else p)
    choose true h = wake (h refl)
    choose false h = stay

pub sleeping_alive : (s : ProcState) → is_sleeping s ≡ true → is_alive s ≡ true
sleeping_alive s h = ground arith

awake_running : (s : ProcState) → is_sleeping s ≡ true → s ≢ ProcState.running
awake_running s h e = ground arith

pub woken-Calm : (q : ℕ) (chan : Chan) (p : Proc) → Calm q p (woken chan p)
woken-Calm q chan p =
    woken-elim (Calm q p) chan p (Calm-refl q p)
      (λ e. state-Calm q p ProcState.runnable (sleeping_alive p.state e) refl refl)

pub woken-Keeps : (chan : Chan) (p : Proc) → Keeps p (woken chan p)
woken-Keeps chan p =
    woken-elim (Keeps p) chan p (Keeps-self p)
      (λ e. alive-Keeps p (record p { state = ProcState.runnable }) (sleeping_alive p.state e) refl)

pub woken-running :
    (chan : Chan) (p : Proc)
    → p.state ≡ ProcState.running
    → (woken chan p).state ≡ ProcState.running
woken-running chan p h =
    woken-elim (λ x. x.state ≡ ProcState.running) chan p h (λ e. absurd (awake_running p.state e h))

pub wakes-IsSound :
    (init : ℕ) (chan : Chan) (s : System)
    → IsSound init s
    → IsSound init (record s { table = wakeup1 chan s.table })
wakes-IsSound init chan s i =
    let at = λ (x : ℕ) (h : x < nproc). sym (wakeup1-at chan s.table x h) in
    stays-IsSound init s (wakeup1 chan s.table)
      (λ x h. subst (Calm x (s.table x)) (at x h) (woken-Calm x chan (s.table x)))
      (λ x h. subst (Keeps (s.table x)) (at x h) (woken-Keeps chan (s.table x)))
      (λ x h r.
        subst (λ y. y.state ≡ ProcState.running) (at x h) (woken-running chan (s.table x) r))
      i
