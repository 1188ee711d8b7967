-- ===== src/Alarm/Handling.antt =====
-- The handler: the way into it and back, and what a tick does meanwhile.
use mephi_os_labs.Prelude.{
  ℕ, ◌+◌, ◌-◌, ◌%◌, ◌^◌, ◌≤◌, ◌<◌, ◌≡◌, ap, ◌∙◌, ◌⊎◌, Bool, true, false, arith,
}
use mephi_os_labs.Alarm.{
  TrapFrame, State, read_word, write_word, usermode, with_registers, has_page, tick,
}
use mephi_os_labs.Alarm.Words.{read_word-write_word, write_word-other}
use mephi_os_labs.Alarm.Period.{IsOn, delivered, count-due, tick-count}

-- The state with the handler over.
abbrev pub resumed : State → TrapFrame → State
resumed s f = record {
  alarm = record (s.alarm) { alarm_in_handler = false };
  tf = with_registers s.tf f;
  memory = s.memory;
}

-- The instruction `ret`: the word on the stack is the next instruction.
abbrev pub ret : State → State
ret s = record s {
  tf = record (s.tf) { eip = read_word s.memory s.tf.esp; esp = (s.tf.esp + 4) % 2 ^ 32 };
}

ret-delivered : (s : State) → s.tf.eip < 2 ^ 32 → s.tf.esp < 2 ^ 32 → (ret (delivered s)).tf ≡ s.tf
ret-delivered s he hs =
    let esp = (s.tf.esp + (2 ^ 32 - 4)) % 2 ^ 32 in
    let back : (esp + 4) % 2 ^ 32 ≡ s.tf.esp = omega arith in
    ap (λ e. record (s.tf) { eip = e; esp = (esp + 4) % 2 ^ 32 })
      (read_word-write_word s.memory esp s.tf.eip he)
    ∙ ap (λ p. record (s.tf) { esp = p }) back

-- A handler that saves what it uses and then returns goes back to the interrupted instruction, with
-- every register as it was; of the memory only the word below the stack has changed. The conditions
-- are those under which the tick calls the handler, and that the stack has room for a word.
pub ret-tick :
    (page : Bool) (s : State)
    → usermode s.tf ≡ true
    → s.alarm.alarm_in_handler ≡ false
    → IsOn s.alarm
    → s.alarm.alarm_ticks + 1 ≡ s.alarm.alarm_interval
    → has_page page s.alarm.alarm_tf ≡ true
    → s.tf.eip < 2 ^ 32
    → 4 ≤ s.tf.esp
    → s.tf.esp < 2 ^ 32
    → ((tick page s).tf.eip ≡ s.alarm.alarm_handler)
      × ((ret (tick page s)).tf ≡ s.tf)
      × ((q : ℕ) → (q < s.tf.esp - 4) ⊎ (s.tf.esp ≤ q) → (ret (tick page s)).memory q ≡ s.memory q)
ret-tick page s hu hi on h hp he h4 hs =
    let e : tick page s ≡ delivered s = tick-count page s hi ∙ count-due page s hu hi on h hp in
    let esp : (s.tf.esp + (2 ^ 32 - 4)) % 2 ^ 32 ≡ s.tf.esp - 4 = omega arith in
    (
      ap (λ x. x.tf.eip) e,
      ap (λ x. (ret x).tf) e ∙ ret-delivered s he hs,
      λ q hq.
          ap (λ x. (ret x).memory q) e
          ∙ ap (λ p. write_word s.memory p s.tf.eip q) esp
          ∙ write_word-other s.memory (s.tf.esp - 4) s.tf.eip q (ground arith),
    )
