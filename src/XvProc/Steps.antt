-- ===== src/XvProc/Steps.antt =====
-- All steps keep the invariants.
use mephi_os_labs.Prelude.{ℕ}
use mephi_os_labs.XvProc.{Chan}
use mephi_os_labs.XvProc.System.{System, Step, Reach, IsSound, Step, Reach}
use mephi_os_labs.XvProc.Fork.{allocates-IsSound, fork_fails-IsSound, forks-IsSound}
use mephi_os_labs.XvProc.Simple.{yields-IsSound, sleeps-IsSound, wakes-IsSound}
use mephi_os_labs.XvProc.Dispatch.{dispatches-IsSound, awakes-IsSound, kills-IsSound}
use mephi_os_labs.XvProc.Children.{waits-IsSound}
use mephi_os_labs.XvProc.Exited.{exits-IsSound}

Step-IsSound : {init : ℕ} {s u : System} → Step init s u → IsSound init s → IsSound init u
Step-IsSound {init = init} {s = s} (Step.dispatches c i {p = p} {t = t} idle hi e) j =
    dispatches-IsSound init c i p s t hi e j
Step-IsSound {init = init} {s = s} (Step.yields c p h) j = yields-IsSound init c p s h j
Step-IsSound {init = init} {s = s} (Step.sleeps c p k h) j = sleeps-IsSound init c p k s h j
Step-IsSound {init = init} {s = s} (Step.awakes c p h) j = awakes-IsSound init c p s h j
Step-IsSound {init = init} {s = s} (Step.wakes k) j = wakes-IsSound init (Chan.other k) s j
Step-IsSound {init = init} {s = s} (Step.allocates page w) j = allocates-IsSound init page s w j
Step-IsSound {init = init} {s = s} (Step.fork_fails np hn e) j = fork_fails-IsSound init np s e j
Step-IsSound {init = init} {s = s} (Step.forks c p np h hn e) j = forks-IsSound init c p np s h e j
Step-IsSound {init = init} {s = s} (Step.exits c p {t = t} h e) j = exits-IsSound init c p s t h e j
Step-IsSound {init = init} {s = s} (Step.waits c p h) j = waits-IsSound init c p s h j
Step-IsSound {init = init} {s = s} (Step.kills pid) j = kills-IsSound init pid s j

-- In every state that is reached from a sound one, in any order of steps on any number of processors:
-- each processor runs a process of its own that is marked as running; the pids in use differ; init is
-- alive; each other process that was started has a parent that is alive, so none is left without one
-- to reap it; and no process sleeps in `wait` while it has a child to reap, so no wake-up is lost.
pub Reach-IsSound : {init : ℕ} {s u : System} → Reach init s u → IsSound init s → IsSound init u
Reach-IsSound Reach.begin i = i
Reach-IsSound (Reach.later r step) i = Step-IsSound step (Reach-IsSound r i)
