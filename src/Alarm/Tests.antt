-- ===== src/Alarm/Tests.antt =====
-- An alarm every three ticks, set with the arguments on the stack.
use mephi_os_labs.Prelude.{
  ℕ, ◌-◌, ◌^◌, ◌≤◌, ◌<◌, ◌≡◌, refl, ◌⊎◌, true, false, none, some, [], ◌∷◌, arith,
}
use mephi_os_labs.Alarm.{TrapFrame, Alarm, State, no_alarm, write_word, read_word, tick, sys_alarm}
use mephi_os_labs.Alarm.Invariant.{Life, IsSound, Life-IsSound}
use mephi_os_labs.Alarm.Calls.{Tick, run, eips, handler_periodic}
use mephi_os_labs.Alarm.Handling.{ret, ret-tick}

-- A frame of user mode: the stack pointer, the instruction and `eax`.
abbrev at : ℕ → ℕ → ℕ → TrapFrame
at esp eip eax = record {
  edi = 1;
  esi = 2;
  ebp = 3;
  oesp = 0;
  ebx = 4;
  edx = 5;
  ecx = 6;
  eax = eax;
  gs = 0;
  fs = 0;
  es = 35;
  ds = 35;
  trapno = 32;
  err = 0;
  eip = eip;
  cs = 27;
  eflags = 512;
  esp = esp;
  ss = 35;
}

-- The stack of a call of `alarm(3, 64)`.
abbrev arguments : ℕ → ℕ
arguments = write_word (write_word (λ _. 0) 1004 3) 1008 64

abbrev calling : State
calling = record { alarm = no_alarm; tf = at 1000 100 0; memory = arguments }

abbrev three : Alarm
three = record {
  alarm_interval = 3;
  alarm_ticks = 0;
  alarm_handler = 64;
  alarm_in_handler = false;
  alarm_tf = none;
}

sys_alarm-set : sys_alarm 4096 calling ≡ (0, three)
unfolding sys_alarm read_word write_word
sys_alarm-set = refl

-- A stack outside the process: -1, and nothing changes.
sys_alarm-refused : sys_alarm 512 calling ≡ (2 ^ 32 - 1, no_alarm)
unfolding sys_alarm read_word write_word
sys_alarm-refused = refl

abbrev a_tick : ℕ → Tick
a_tick eip = record { page = true; tf = at 1000 eip 7; memory = λ _. 0 }

handler_periodic_example :
    eips (run three (a_tick 101 ∷ a_tick 102 ∷ a_tick 103 ∷ [])) ≡ 101 ∷ 102 ∷ 64 ∷ []
handler_periodic_example =
    handler_periodic three (a_tick 101 ∷ a_tick 102 ∷ []) (a_tick 103) refl
      (record { positive = omega arith; small = omega arith }) (refl, (refl, tt)) refl refl refl

-- Two ticks have passed.
abbrev due : State
due = record { alarm = record three { alarm_ticks = 2 }; tf = at 1000 103 7; memory = λ _. 0 }

ret-tick_example :
    ((tick true due).tf.eip ≡ 64)
    × ((ret (tick true due)).tf ≡ due.tf)
    × ((q : ℕ) → (q < 996) ⊎ (1000 ≤ q) → (ret (tick true due)).memory q ≡ 0)
ret-tick_example =
    ret-tick true due refl refl (record { positive = omega arith; small = omega arith }) refl refl
      (omega arith) (omega arith) (omega arith)

-- The handler runs, with the frame of `due` saved.
abbrev handling : TrapFrame → State
handling f = record {
  alarm = record three { alarm_in_handler = true; alarm_tf = some due.tf };
  tf = f;
  memory = λ _. 0;
}

Life-IsSound_example :
    IsSound (tick true (record calling { alarm = (sys_alarm 4096 calling).1 })).alarm
Life-IsSound_example =
    Life-IsSound (Life.ticks true (Life.calls 4096 (Life.born (at 1000 100 0) arguments)))
