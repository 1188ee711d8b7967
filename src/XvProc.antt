-- ===== src/XvProc.antt =====
-- signal/alarm/proc.c: the process table of xv6 and the states of its processes. A process is its index in
-- the table. What a function does while it holds ptable.lock is one step; memory, files and registers of
-- a process are left out.
pub mod Scan
pub mod System
pub mod Invariant
pub mod Simple
pub mod Dispatch
pub mod Fork
pub mod Children
pub mod Exit
pub mod Exited
pub mod Steps
mod Tests
use mephi_os_labs.Prelude.{
  ℕ, zero, suc, ◌+◌, ◌-◌, ◌%◌, ◌^◌, Bool, true, false, not, ◌&&◌, ◌||◌, Option, none, some, ◌==◌,
  if◌then◌else◌,
}

pub data ProcState : Type 0 where
  unused embryo sleeping runnable running zombie : ProcState

-- What a process sleeps on: the address of a process, or another one.
pub data Chan : Type 0 where
  proc : ℕ → Chan
  other : ℕ → Chan

-- `struct proc`
pub record Proc : Type 0 where
  pub state : ProcState
  pub pid : ℕ
  pub parent : Option ℕ
  pub chan : Option Chan
  pub killed : Bool

abbrev pub nproc : ℕ
nproc = 64

-- `ptable.proc`
abbrev pub Table : Type 0
Table = ℕ → Proc

abbrev pub put : Table → ℕ → Proc → Table
put t i p q = if q == i then p else t q

abbrev pub is_unused : ProcState → Bool
is_unused ProcState.unused = true
is_unused _ = false

abbrev pub is_sleeping : ProcState → Bool
is_sleeping ProcState.sleeping = true
is_sleeping _ = false

abbrev pub is_runnable : ProcState → Bool
is_runnable ProcState.runnable = true
is_runnable _ = false

abbrev pub is_zombie : ProcState → Bool
is_zombie ProcState.zombie = true
is_zombie _ = false

abbrev pub same_chan : Chan → Chan → Bool
same_chan (Chan.proc a) (Chan.proc b) = a == b
same_chan (Chan.other a) (Chan.other b) = a == b
same_chan _ _ = false

-- `p->chan == chan`
abbrev pub chan_is : Option Chan → Chan → Bool
chan_is none chan = false
chan_is (some c) chan = same_chan c chan

-- `p->parent == curproc`
abbrev pub parent_is : Option ℕ → ℕ → Bool
parent_is none cur = false
parent_is (some p) cur = p == cur

-- `for(p = ptable.proc; p < &ptable.proc[n]; p++)` over a body that changes the table.
unfoldable pub for_each : ℕ → (ℕ → Table → Table) → Table → Table
for_each zero body t = t
for_each (suc n) body t = body n (for_each n body t)

-- The same loop where it stops at the first process with a property: the next `n` from `i` on.
unfoldable pub find_first : (ℕ → Bool) → ℕ → ℕ → Option ℕ
find_first f zero i = none
find_first f (suc n) i = let rest = find_first f n (i + 1) in if f i then some i else rest

-- The body of the loop of `wakeup1`.
abbrev pub woken : Chan → Proc → Proc
woken chan p =
    if is_sleeping p.state && chan_is p.chan chan
    then record p { state = ProcState.runnable }
    else p

-- `wakeup1`
unfoldable pub wakeup1 : Chan → Table → Table
unfolding for_each
wakeup1 chan t = for_each nproc (λ i t. put t i (woken chan (t i))) t

abbrev pub set_state : Table → ℕ → ProcState → Table
set_state t i s = put t i (record (t i) { state = s })

-- `allocproc` behind its search: the state, the next pid, and the process, if `kalloc` gives a stack.
abbrev pub allocated : Bool → ℕ → Table → Option ℕ → Option ℕ × ℕ × Table
allocated page nextpid t none = (none, nextpid, t)
allocated page nextpid t (some i) =
    let s = if page then ProcState.embryo else ProcState.unused in
    (
      if page then some i else none,
      (nextpid + 1) % 2 ^ 32,
      put t i (record (t i) { state = s; pid = nextpid }),
    )

-- `allocproc`
unfoldable pub allocproc : Bool → ℕ → Table → Option ℕ × ℕ × Table
unfolding find_first
allocproc page nextpid t =
    allocated page nextpid t (find_first (λ i. is_unused (t i).state) nproc 0)

-- `fork` where `copyuvm` fails.
abbrev pub fork_failed : ℕ → Table → Table
fork_failed np t = set_state t np ProcState.unused

-- `fork` from there on: the child has a parent and may run.
abbrev pub fork_done : ℕ → ℕ → Table → Table
fork_done cur np t = put t np (record (t np) { parent = some cur; state = ProcState.runnable })

-- The body of the loop of `exit` that passes children to init.
unfoldable pub adopt : ℕ → ℕ → ℕ → Table → Table
unfolding wakeup1
adopt cur init i t =
    let t1 = put t i (record (t i) { parent = some init }) in
    if parent_is (t i).parent cur
    then (if is_zombie (t i).state then wakeup1 (Chan.proc init) t1 else t1)
    else t

abbrev pub wake_parent : Option ℕ → Table → Table
wake_parent none t = t
wake_parent (some p) t = wakeup1 (Chan.proc p) t

-- `exit` from its lock on, none for a panic.
unfoldable pub exit : ℕ → ℕ → Table → Option Table
unfolding adopt
exit init cur t =
    let t1 = wake_parent (t cur).parent t in
    let t2 = for_each nproc (adopt cur init) t1 in
    if cur == init then none else some (set_state t2 cur ProcState.zombie)

-- What a round of `wait` ends with: the pid of a child, -1, or sleep.
pub data Waited : Type 0 where
  reaped : ℕ → Waited
  failed : Waited
  asleep : Waited

abbrev pub freed : Proc → Proc
freed p = record p { pid = 0; parent = none; killed = false; state = ProcState.unused }

-- `sleep` up to its call of `sched`.
abbrev pub sleep : ℕ → Chan → Table → Table
sleep cur chan t = put t cur (record (t cur) { chan = some chan; state = ProcState.sleeping })

-- `sleep` behind it.
abbrev pub awake : ℕ → Table → Table
awake cur t = put t cur (record (t cur) { chan = none })

abbrev pub is_child : Table → ℕ → ℕ → Bool
is_child t cur i = parent_is (t i).parent cur

abbrev pub has_one : Option ℕ → Bool
has_one none = false
has_one (some i) = true

abbrev pub waited : ℕ → Table → Option ℕ → Bool → Waited × Table
waited cur t (some i) kids = (Waited.reaped (t i).pid, put t i (freed (t i)))
waited cur t none kids =
    if not kids || (t cur).killed
    then (Waited.failed, t)
    else (Waited.asleep, sleep cur (Chan.proc cur) t)

-- A round of the loop of `wait`.
unfoldable pub wait : ℕ → Table → Waited × Table
unfolding find_first
wait cur t =
    waited cur t (find_first (λ i. is_child t cur i && is_zombie (t i).state) nproc 0)
      (has_one (find_first (is_child t cur) nproc 0))

abbrev pub chosen : Table → Option ℕ → Option (ℕ × Table)
chosen t none = none
chosen t (some p) = some (p, set_state t p ProcState.running)

-- The loop of `scheduler` from process `i` on, up to the process that it switches to.
unfoldable pub scheduler : ℕ → Table → Option (ℕ × Table)
unfolding find_first
scheduler i t = chosen t (find_first (λ p. is_runnable (t p).state) (nproc - i) i)

-- `yield` up to its call of `sched`.
abbrev pub yield : ℕ → Table → Table
yield cur t = set_state t cur ProcState.runnable

abbrev pub killed_proc : Proc → Proc
killed_proc p = record p {
  killed = true;
  state = if is_sleeping p.state then ProcState.runnable else p.state;
}

abbrev pub kill_found : Table → Option ℕ → ℕ × Table
kill_found t none = (2 ^ 32 - 1, t)
kill_found t (some i) = (0, put t i (killed_proc (t i)))

-- `kill`
unfoldable pub kill : ℕ → Table → ℕ × Table
unfolding find_first
kill pid t = kill_found t (find_first (λ i. (t i).pid == pid) nproc 0)
