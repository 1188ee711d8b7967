-- ===== src/Alarm/Period.antt =====
-- How often the handler is called: ticks in user mode are counted, and the one that makes the
-- count equal to the interval calls it.
use mephi_os_labs.Prelude.{
  ℕ, ◌+◌, ◌-◌, ◌%◌, ◌^◌, ◌≤◌, ◌<◌, ◌≡◌, refl, ap, ◌∙◌, Bool, true, false, Option, none, some, arith,
  if◌then◌else◌,
}
use mephi_os_labs.Alarm.{
  TrapFrame, Alarm, State, signed_leb, signed_ltb, usermode, restore, has_page, deliver, count,
  tick, write_word,
}
use mephi_os_labs.Alarm.Words.{signed_ltb-positive}

-- The interval is positive as an `int`.
pub record IsOn (a : Alarm) : Type 0 where
  pub positive : 0 < a.alarm_interval
  pub small : a.alarm_interval < 2 ^ 31

-- The alarm with its count set.
abbrev pub counted : Alarm → ℕ → Alarm
counted a n = record a { alarm_ticks = n }

pub restore-off :
    (o : Option TrapFrame) (s : State) → s.alarm.alarm_in_handler ≡ false → restore o s ≡ s
unfolding restore
restore-off none s h = refl
restore-off (some f) s h = rw h

-- What `count` does once its test has passed.
abbrev counts : Bool → State → State
counts page s =
    let ticks = (s.alarm.alarm_ticks + 1) % 2 ^ 32 in
    let more = record s { alarm = counted s.alarm ticks } in
    if signed_leb s.alarm.alarm_interval ticks then deliver page more else more

count-counts :
    (page : Bool) (s : State)
    → usermode s.tf ≡ true
    → s.alarm.alarm_in_handler ≡ false
    → signed_ltb 0 s.alarm.alarm_interval ≡ true
    → count page s ≡ counts page s
unfolding count
count-counts page s hu hi hp = rw (hu, hi, hp)

tick_lt : (n i : ℕ) → i < 2 ^ 31 → n + 1 < i → signed_leb i ((n + 1) % 2 ^ 32) ≡ false
unfolding signed_leb
tick_lt n i h1 h2 = ground arith

tick_eq : (n i : ℕ) → i < 2 ^ 31 → n + 1 ≡ i → signed_leb i ((n + 1) % 2 ^ 32) ≡ true
unfolding signed_leb
tick_eq n i h1 h2 = ground arith

small-mod : (n i : ℕ) → i < 2 ^ 31 → n + 1 ≤ i → (n + 1) % 2 ^ 32 ≡ n + 1
small-mod n i h1 h2 = omega arith

-- A tick that is not the last of the interval.
pub count-waiting :
    (page : Bool) (s : State)
    → usermode s.tf ≡ true
    → s.alarm.alarm_in_handler ≡ false
    → IsOn s.alarm
    → s.alarm.alarm_ticks + 1 < s.alarm.alarm_interval
    → count page s ≡ record s { alarm = counted s.alarm (s.alarm.alarm_ticks + 1) }
count-waiting page s hu hi on h =
    let t = s.alarm.alarm_ticks in
    count-counts page s hu hi (signed_ltb-positive s.alarm.alarm_interval on.positive on.small)
    ∙ ap
        (λ b.
          if b
          then deliver page (record s { alarm = counted s.alarm ((t + 1) % 2 ^ 32) })
          else record s { alarm = counted s.alarm ((t + 1) % 2 ^ 32) })
        (tick_lt t s.alarm.alarm_interval on.small h)
    ∙ ap (λ n. record s { alarm = counted s.alarm n })
        (small-mod t s.alarm.alarm_interval on.small (omega arith))

-- The state behind the call of the handler.
abbrev pub delivered : State → State
delivered s =
    let esp = (s.tf.esp + (2 ^ 32 - 4)) % 2 ^ 32 in
    record {
      alarm = record (s.alarm) { alarm_ticks = 0; alarm_tf = some s.tf; alarm_in_handler = true };
      tf = record (s.tf) { esp = esp; eip = s.alarm.alarm_handler };
      memory = write_word s.memory esp s.tf.eip;
    }

deliver-delivered :
    (page : Bool) (s : State) (n : ℕ)
    → has_page page s.alarm.alarm_tf ≡ true
    → deliver page (record s { alarm = counted s.alarm n }) ≡ delivered s
unfolding deliver
deliver-delivered page s n h = rw h

-- The last tick of the interval.
pub count-due :
    (page : Bool) (s : State)
    → usermode s.tf ≡ true
    → s.alarm.alarm_in_handler ≡ false
    → IsOn s.alarm
    → s.alarm.alarm_ticks + 1 ≡ s.alarm.alarm_interval
    → has_page page s.alarm.alarm_tf ≡ true
    → count page s ≡ delivered s
count-due page s hu hi on h hp =
    let t = s.alarm.alarm_ticks in
    count-counts page s hu hi (signed_ltb-positive s.alarm.alarm_interval on.positive on.small)
    ∙ ap
        (λ b.
          if b
          then deliver page (record s { alarm = counted s.alarm ((t + 1) % 2 ^ 32) })
          else record s { alarm = counted s.alarm ((t + 1) % 2 ^ 32) })
        (tick_eq t s.alarm.alarm_interval on.small h)
    ∙ deliver-delivered page s ((t + 1) % 2 ^ 32) hp

pub tick-count :
    (page : Bool) (s : State) → s.alarm.alarm_in_handler ≡ false → tick page s ≡ count page s
unfolding tick
tick-count page s h = ap (count page) (restore-off s.alarm.alarm_tf s h)
