-- ===== src/XvProc/System.antt =====
-- The processors and the table, and the steps that change them. A step is what happens under the lock
-- of the table; between the steps of one process those of others come in any order.
use mephi_os_labs.Prelude.{
  ℕ, ◌+◌, ◌^◌, ◌≤◌, ◌<◌, ◌≡◌, ◌≢◌, Bool, true, false, ◌&&◌, Option, none, some, ◌==◌, if◌then◌else◌,
}
use mephi_os_labs.XvProc.{
  ProcState, Chan, Proc, Table, nproc, allocproc, fork_failed, fork_done, exit, Waited, sleep,
  awake, wait, wakeup1, scheduler, yield, kill, is_sleeping, is_zombie, is_unused, chan_is,
}

pub record System : Type 0 where
  pub table : Table
  pub nextpid : ℕ
  pub cpus : ℕ → Option ℕ  -- `c->proc`

abbrev pub on_cpu : (ℕ → Option ℕ) → ℕ → Option ℕ → ℕ → Option ℕ
on_cpu cpus c o q = if q == c then o else cpus q

-- A process that sleeps in `wait` leaves its processor.
abbrev pub behind_wait : Waited → (ℕ → Option ℕ) → ℕ → ℕ → Option ℕ
behind_wait Waited.asleep cpus c = on_cpu cpus c none
behind_wait _ cpus c = cpus

pub data Step (init : ℕ) (s : System) : System → Type 0 where
  dispatches :
      (c i : ℕ) {p : ℕ} {t : Table}
      → s.cpus c ≡ none
      → i ≤ nproc
      → scheduler i s.table ≡ some (p, t)
      → Step init s (record s { table = t; cpus = on_cpu s.cpus c (some p) })
  yields :
      (c p : ℕ)
      → s.cpus c ≡ some p
      → Step init s (record s { table = yield p s.table; cpus = on_cpu s.cpus c none })
  sleeps :
      (c p k : ℕ)
      → s.cpus c ≡ some p
      → Step init s
          (record s { table = sleep p (Chan.other k) s.table; cpus = on_cpu s.cpus c none })
  awakes : (c p : ℕ) → s.cpus c ≡ some p → Step init s (record s { table = awake p s.table })
  wakes : (k : ℕ) → Step init s (record s { table = wakeup1 (Chan.other k) s.table })
  allocates :
      (page : Bool)
      → s.nextpid + 1 < 2 ^ 32
      → Step init s (record s {
        table = (allocproc page s.nextpid s.table).2;
        nextpid = (allocproc page s.nextpid s.table).1;
      })
  fork_fails :
      (np : ℕ)
      → np < nproc
      → (s.table np).state ≡ ProcState.embryo
      → Step init s (record s { table = fork_failed np s.table })
  forks :
      (c p np : ℕ)
      → s.cpus c ≡ some p
      → np < nproc
      → (s.table np).state ≡ ProcState.embryo
      → Step init s (record s { table = fork_done p np s.table })
  exits :
      (c p : ℕ) {t : Table}
      → s.cpus c ≡ some p
      → exit init p s.table ≡ some t
      → Step init s (record s { table = t; cpus = on_cpu s.cpus c none })
  waits :
      (c p : ℕ)
      → s.cpus c ≡ some p
      → Step init s
          (record s { table = (wait p s.table).1; cpus = behind_wait (wait p s.table).0 s.cpus c })
  kills : (pid : ℕ) → Step init s (record s { table = (kill pid s.table).1 })

pub data Reach (init : ℕ) (s : System) : System → Type 0 where
  begin : Reach init s s
  later : {t u : System} → Reach init s t → Step init t u → Reach init s u

abbrev pub is_alive : ProcState → Bool
is_alive ProcState.sleeping = true
is_alive ProcState.runnable = true
is_alive ProcState.running = true
is_alive _ = false

abbrev pub is_born : ProcState → Bool
is_born ProcState.zombie = true
is_born s = is_alive s

-- `p` sleeps in `wait`.
abbrev pub naps : ℕ → Proc → Bool
naps q p = is_sleeping p.state && chan_is p.chan (Chan.proc q)

-- Another process, which is alive, is the parent.
pub record HasParent (t : Table) (q : ℕ) : Type 0 where
  pub parent : ℕ
  pub is_parent : (t q).parent ≡ some parent
  pub in_table : parent < nproc
  pub another : parent ≢ q
  pub alive : is_alive (t parent).state ≡ true

-- The process tree: init is alive, each process but init that was started has a parent that is alive, and
-- a parent that sleeps in `wait` has no child that it could reap.
pub record IsFamily (init : ℕ) (t : Table) : Type 0 where
  pub root : init < nproc
  pub root_alive : is_alive (t init).state ≡ true
  pub kin : (q : ℕ) → q < nproc → q ≢ init → is_born (t q).state ≡ true → HasParent t q
  pub nap :
      (q r : ℕ)
      → q < nproc
      → r < nproc
      → (t r).parent ≡ some q
      → is_zombie (t r).state ≡ true
      → naps q (t q) ≡ false

-- The pids in use differ, and the next one is new.
pub record IsNumbered (nextpid : ℕ) (t : Table) : Type 0 where
  pub differ :
      (q r : ℕ)
      → q < nproc
      → r < nproc
      → q ≢ r
      → is_unused (t q).state ≡ false
      → is_unused (t r).state ≡ false
      → (t q).pid ≢ (t r).pid
  pub fresh : (q : ℕ) → q < nproc → is_unused (t q).state ≡ false → (t q).pid < nextpid

-- A processor runs a process that is marked so, and no two run the same.
pub record IsRunning (cpus : ℕ → Option ℕ) (t : Table) : Type 0 where
  pub marked : (c p : ℕ) → cpus c ≡ some p → (p < nproc) × ((t p).state ≡ ProcState.running)
  pub once : (c d p : ℕ) → cpus c ≡ some p → cpus d ≡ some p → c ≡ d

pub record IsSound (init : ℕ) (s : System) : Type 0 where
  pub family : IsFamily init s.table
  pub numbered : IsNumbered s.nextpid s.table
  pub running : IsRunning s.cpus s.table
