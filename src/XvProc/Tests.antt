-- ===== src/XvProc/Tests.antt =====
-- init sleeps in `wait`, and its child runs and ends.
use mephi_os_labs.Prelude.{ℕ, ◌<◌, ◌≡◌, refl, sym, ◌∙◌, subst, ◌≢◌, true, false, none, some, arith}
use mephi_os_labs.XvProc.{
  ProcState, Chan, Proc, Table, nproc, put, is_unused, is_zombie, for_each, find_first, wakeup1,
  set_state, allocproc, adopt, wake_parent, exit, Waited, wait, kill,
}
use mephi_os_labs.XvProc.System.{System, on_cpu, is_born, IsSound, Step, Reach}
use mephi_os_labs.XvProc.Invariant.{put-elim}
use mephi_os_labs.XvProc.Steps.{Reach-IsSound}

abbrev empty : Table
empty q = record { state = ProcState.unused; pid = 0; parent = none; chan = none; killed = false }

abbrev root : Proc
root = record {
  state = ProcState.sleeping;
  pid = 1;
  parent = none;
  chan = some (Chan.proc 0);
  killed = false;
}

abbrev child : Proc
child = record { state = ProcState.running; pid = 2; parent = some 0; chan = none; killed = false }

abbrev two : System
two = record {
  table = put (put empty 0 root) 1 child;
  nextpid = 3;
  cpus = on_cpu (λ _. none) 0 (some 1);
}

two-elim :
    (P : ℕ → Proc → Type 0)
    → P 1 child
    → P 0 root
    → ((q : ℕ) → P q (empty q))
    → (q : ℕ) → P q (two.table q)
two-elim P c r e q =
    put-elim P (put empty 0 root) 1 child c (λ q _. put-elim P empty 0 root r (λ q _. e q) q) q

false≢true : false ≢ true
false≢true h = ground arith

one_cpu : (c p : ℕ) → on_cpu (λ _. none) 0 (some 1) c ≡ some p → (c ≡ 0) × (p ≡ 1)
one_cpu c p h = ground arith

two-IsSound : IsSound 0 two
two-IsSound = record {
  family = record {
    root = omega arith;
    root_alive = refl;
    kin = λ q hq n b. record {
      parent = 0;
      is_parent =
          two-elim (λ q y. q ≢ 0 → is_born y.state ≡ true → y.parent ≡ some 0) (λ n _. refl)
            (λ n _. absurd (n refl)) (λ q n b. absurd (false≢true b)) q n b;
      in_table = omega arith;
      another = λ e. n (sym e);
      alive = refl;
    };
    nap = λ q r hq hr p z. absurd (
        false≢true (
          two-elim (λ x y. is_zombie y.state ≡ true → false ≡ true) (λ h. h) (λ h. h) (λ q h. h) r
            z));
  };
  numbered = record {
    differ = λ q r hq hr.
        two-elim
          (λ q y.
            q ≢ r
            → is_unused y.state ≡ false
            → is_unused (two.table r).state ≡ false
            → y.pid ≢ (two.table r).pid)
          (two-elim
            (λ r y. 1 ≢ r → is_unused child.state ≡ false → is_unused y.state ≡ false → 2 ≢ y.pid)
            (λ n _ _ _. n refl) (λ _ _ _ e. omega arith) (λ r _ _ u _. false≢true (sym u)) r)
          (two-elim
            (λ r y. 0 ≢ r → is_unused root.state ≡ false → is_unused y.state ≡ false → 1 ≢ y.pid)
            (λ _ _ _ e. omega arith) (λ n _ _ _. n refl) (λ r _ _ u _. false≢true (sym u)) r)
          (λ q _ u _ _. false≢true (sym u)) q;
    fresh = λ q hq.
        two-elim (λ q y. is_unused y.state ≡ false → y.pid < 3) (λ _. omega arith)
          (λ _. omega arith) (λ q u. absurd (false≢true (sym u))) q;
  };
  running = record {
    marked = λ c p h.
        let e = one_cpu c p h in
        subst (λ x. (x < nproc) × ((two.table x).state ≡ ProcState.running)) (sym e.1)
          (omega arith, refl);
    once = λ c d p hc hd. (one_cpu c p hc).0 ∙ sym (one_cpu d p hd).0;
  };
}

-- The child has ended.
abbrev ended : Table
ended = set_state (for_each nproc (adopt 1 0) (wake_parent (some 0) two.table)) 1 ProcState.zombie

Reach-IsSound_example : IsSound 0 (record two { table = ended; cpus = on_cpu two.cpus 0 none })
unfolding exit
Reach-IsSound_example =
    Reach-IsSound (Reach.later Reach.begin (Step.exits 0 1 refl refl)) two-IsSound

-- init is awake, and its next round of `wait` gives the pid of the child.
init_awake : (ended 0).state ≡ ProcState.runnable
unfolding for_each adopt wakeup1
init_awake = refl

child_reaped : (wait 0 ended).0 ≡ Waited.reaped 2
unfolding wait find_first for_each adopt wakeup1
child_reaped = refl

-- A slot whose `fork` failed keeps its pid: `kill` finds it, and the next process there starts killed.
abbrev stale : Table
stale = (allocproc false 7 empty).2

stale_killed : ((allocproc true 8 (kill 7 stale).1).2 0).killed ≡ true
unfolding allocproc kill find_first
stale_killed = refl
