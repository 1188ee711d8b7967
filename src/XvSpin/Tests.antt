-- ===== src/XvSpin/Tests.antt =====
-- A processor that takes a lock.
use mephi_os_labs.Prelude.{◌≡◌, refl, true, false, Option, none, some, []}
use mephi_os_labs.XvSpin.{
  Cpu, pushcli, popcli, outside, spin, record_owner, Processor, assign, acquire, take_lock, System,
  IsInitial, initial, step,
}
use mephi_os_labs.XvSpin.Excludes.{Excludes, Reach-Excludes}

abbrev start : System
start = record {
  lock = λ l. record { locked = false; cpu = none };
  processor = λ c. record {
    cpu = record { ncli = 0; intena = false; interrupts = true };
    pc = outside;
    held = [];
    pushed = 0;
  };
}

start-IsInitial : IsInitial start
start-IsInitial = record {
  unlocked = λ l. refl;
  outside = λ c. refl;
  none_held = λ c. refl;
  none_pushed = λ c. refl;
  not_nested = λ c. refl;
}

-- Processor 1 in `acquire` of the lock 3, with the exchange done.
abbrev spinning : Processor
spinning = record (start.processor 1) { cpu = pushcli (start.processor 1).cpu; pc = spin 3 }

abbrev exchanged : System
exchanged = record {
  lock = assign start.lock 3 (record { locked = true; cpu = none });
  processor =
      assign (assign start.processor 1 spinning) 1 (record spinning { pc = record_owner 3 });
}

Reach-Excludes_example : Excludes exchanged
Reach-Excludes_example =
    Reach-Excludes {s = exchanged}
      (step 1 (step 1 (initial start-IsInitial) (acquire 3 refl refl)) (take_lock 3 refl refl))

-- Two calls of `pushcli` and two of `popcli` leave the interrupts as they were.
abbrev twice : Cpu → Option Cpu
twice c = elim (popcli (pushcli (pushcli c))) [ none ↦ none | some q ↦ popcli q ]

popcli-pushcli_twice :
    twice (record { ncli = 0; intena = false; interrupts = true })
    ≡ some (record { ncli = 0; intena = true; interrupts = true })
popcli-pushcli_twice = refl
