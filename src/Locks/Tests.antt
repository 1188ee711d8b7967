-- ===== src/Locks/Tests.antt =====
-- Runs of two threads under the locks, and the theorems about them there.
use mephi_os_labs.Prelude.{ℕ, ◌%◌, ◌≡◌, refl, ◌≢◌, ◌↔◌, ◌⊎◌, arith}
use mephi_os_labs.Locks.Threads.{assign}
use mephi_os_labs.Locks.RwLock
use mephi_os_labs.Locks.RwLock.Safety.{writers_alone, no_new_readers}
use mephi_os_labs.Locks.RwLock.Progress.{Advances, no_deadlock}
use mephi_os_labs.Locks.SeqLock
use mephi_os_labs.Locks.SeqLock.Snapshot.{read_unlock_snapshot, seq_odd_iff}

-- Thread 0 has the spin lock of the reader-writer lock and waits; thread 1 is outside.
abbrev draining : RwLock.System
draining = record {
  lock = record { locked = 1; readers_cnt = 0 };
  pc = assign (assign (λ _. RwLock.Pc.idle) 0 RwLock.Pc.spin) 0 RwLock.Pc.drain;
}

draining-Reach : RwLock.Reach 2 draining
draining-Reach =
    RwLock.Reach.later
      (RwLock.Reach.later RwLock.Reach.begin
        (RwLock.Step.move 0 (omega arith) RwLock.Move.write_lock))
      (RwLock.Step.move 0 (omega arith) (RwLock.Move.spin_free refl))

abbrev drained : RwLock.System
drained = record draining { pc = assign draining.pc 0 RwLock.Pc.writing }

draining-Step : RwLock.Step 2 draining drained
draining-Step = RwLock.Step.move 0 (omega arith) (RwLock.Move.drained refl)

writers_alone_example :
    (drained.pc 1 ≢ RwLock.Pc.reading) × ((◌≡◌ {A = ℕ} 0 1) ⊎ (drained.pc 1 ≢ RwLock.Pc.writing))
writers_alone_example =
    writers_alone (omega arith) (RwLock.Reach.later draining-Reach draining-Step) 0 1 refl

-- Thread 1 began to read before thread 0 took the spin lock.
abbrev mixed : RwLock.System
mixed = record {
  lock = record { locked = 1; readers_cnt = 1 };
  pc =
      assign
        (assign
          (assign
            (assign (assign (assign (λ _. RwLock.Pc.idle) 1 RwLock.Pc.await) 1 RwLock.Pc.announce) 1
              RwLock.Pc.check)
            1 RwLock.Pc.reading)
          0 RwLock.Pc.spin)
        0 RwLock.Pc.drain;
}

mixed-Reach : RwLock.Reach 2 mixed
mixed-Reach =
    RwLock.Reach.later
      (RwLock.Reach.later
        (RwLock.Reach.later
          (RwLock.Reach.later
            (RwLock.Reach.later
              (RwLock.Reach.later RwLock.Reach.begin
                (RwLock.Step.move 1 (omega arith) RwLock.Move.read_lock))
              (RwLock.Step.move 1 (omega arith) (RwLock.Move.await_free refl)))
            (RwLock.Step.move 1 (omega arith) RwLock.Move.announced))
          (RwLock.Step.move 1 (omega arith) (RwLock.Move.check_free refl)))
        (RwLock.Step.move 0 (omega arith) RwLock.Move.write_lock))
      (RwLock.Step.move 0 (omega arith) (RwLock.Move.spin_free refl))

mixed-Step : RwLock.Step 2 mixed (record mixed { pc = assign mixed.pc 0 RwLock.Pc.drain })
mixed-Step = RwLock.Step.move 0 (omega arith) (RwLock.Move.drain_readers (λ e. omega arith))

no_new_readers_example : mixed.pc 1 ≡ RwLock.Pc.reading
no_new_readers_example = no_new_readers (omega arith) mixed-Reach mixed-Step 0 1 refl refl

no_deadlock_example : Advances 2 mixed
no_deadlock_example = no_deadlock (omega arith) mixed-Reach 0 (omega arith) (λ e. cc)

-- Thread 0 has read both words of the sequence lock.
abbrev copied : SeqLock.System
copied = record {
  lock = SeqLock.init;
  pc =
      assign
        (assign (assign (λ _. SeqLock.Pc.idle) 0 (SeqLock.Pc.got_seq 0)) 0
          (SeqLock.Pc.got_first 0 0))
        0 (SeqLock.Pc.got_both 0 0 0);
}

copied-Reach : SeqLock.Reach 2 3 copied
copied-Reach =
    SeqLock.Reach.later {k = 2}
      (SeqLock.Reach.later {k = 1}
        (SeqLock.Reach.later {k = 0} (SeqLock.Reach.begin refl)
          (SeqLock.Step.move 0 (omega arith) SeqLock.Move.read_lock) refl)
        (SeqLock.Step.move 0 (omega arith) SeqLock.Move.read_first) refl)
      (SeqLock.Step.move 0 (omega arith) SeqLock.Move.read_second) refl

read_unlock_snapshot_example :
    (◌≡◌ {A = ℕ} 0 copied.lock.first)
    × (◌≡◌ {A = ℕ} 0 copied.lock.second)
    × (copied.pc 1 ≢ SeqLock.Pc.inside)
read_unlock_snapshot_example = read_unlock_snapshot (omega arith) copied-Reach 0 1 refl refl

-- Thread 1 is inside.
abbrev entered : SeqLock.System
entered = record {
  lock = record { locked = 1; seq = 1; first = 0; second = 0 };
  pc =
      assign (assign (assign (λ _. SeqLock.Pc.idle) 1 SeqLock.Pc.spin) 1 SeqLock.Pc.owner) 1
        SeqLock.Pc.inside;
}

entered-Reach : SeqLock.Reach 2 3 entered
entered-Reach =
    SeqLock.Reach.later {k = 2}
      (SeqLock.Reach.later {k = 1}
        (SeqLock.Reach.later {k = 0} (SeqLock.Reach.begin refl)
          (SeqLock.Step.move 1 (omega arith) SeqLock.Move.write_lock) refl)
        (SeqLock.Step.move 1 (omega arith) (SeqLock.Move.spin_free refl)) refl)
      (SeqLock.Step.move 1 (omega arith) SeqLock.Move.enter) refl

seq_odd_iff_example :
    ((entered.lock.seq % 2 ≡ 1) ↔ ((j : ℕ) × (entered.pc j ≡ SeqLock.Pc.inside)))
    × ((entered.pc 0 ≢ SeqLock.Pc.owner) ⊎ (entered.lock.seq % 2 ≡ 0))
seq_odd_iff_example = seq_odd_iff (omega arith) entered-Reach 0
