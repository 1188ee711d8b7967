-- ===== src/Alarm/Invariant.antt =====
-- What holds of the alarm of every process, whatever it runs and whenever ticks come.
use mephi_os_labs.Prelude.{
  ℕ, ◌+◌, ◌%◌, ◌^◌, ◌<◌, ◌≡◌, refl, sym, ◌∙◌, Bool, true, false, not, ◌&&◌, Option, none, some,
  arith, ◌==◌, if◌then◌else◌,
}
use mephi_os_labs.Alarm.{
  TrapFrame, Alarm, State, no_alarm, signed_leb, signed_ltb, usermode, restore, has_page, deliver,
  count, tick, set_alarm, arg_int, checked_ptr, sys_alarm,
}

-- The life of a process: what it does in user mode, its calls of `alarm`, and the ticks.
pub data Life : State → Type 0 where
  born : (f : TrapFrame) (m : ℕ → ℕ) → Life (record { alarm = no_alarm; tf = f; memory = m })
  runs : {s : State} (f : TrapFrame) (m : ℕ → ℕ) → Life s → Life (record s { tf = f; memory = m })
  calls : {s : State} (sz : ℕ) → Life s → Life (record s { alarm = (sys_alarm sz s).1 })
  ticks : {s : State} (page : Bool) → Life s → Life (tick page s)

abbrev pub IsSaved : Option TrapFrame → Type 0
IsSaved o = (f : TrapFrame) × (o ≡ some f)

-- The count is below an interval that is positive as an `int`, and a handler that runs has a frame to
-- return to.
pub record IsSound (a : Alarm) : Type 0 where
  pub below : 0 < a.alarm_interval → a.alarm_interval < 2 ^ 31 → a.alarm_ticks < a.alarm_interval
  pub saved : a.alarm_in_handler ≡ true → IsSaved a.alarm_tf

absurd_flag : {o : Option TrapFrame} → false ≡ true → IsSaved o
absurd_flag h = ground arith

not_second : (a b c : Bool) → (a && (not b && c)) ≡ true → b ≡ false
not_second a b c h = ground arith

no_alarm-IsSound : IsSound no_alarm
no_alarm-IsSound = record { below = λ h _. omega arith; saved = λ h. absurd_flag h }

set_alarm-IsSound : (a : Alarm) (n h : Option ℕ) → IsSound a → IsSound (set_alarm a n h).1
set_alarm-IsSound a none h i = i
set_alarm-IsSound a (some n) none i = i
set_alarm-IsSound a (some n) (some h) i = record { below = λ hn _. hn; saved = λ e. absurd_flag e }

-- The two branches of a test.
if-IsSound :
    (b : Bool) (s t : State)
    → (b ≡ true → IsSound s.alarm)
    → (b ≡ false → IsSound t.alarm)
    → IsSound (if b then s else t).alarm
if-IsSound true s t hs ht = hs refl
if-IsSound false s t hs ht = ht refl

restore-IsSound : (o : Option TrapFrame) (s : State) → IsSound s.alarm → IsSound (restore o s).alarm
unfolding restore
restore-IsSound none s i = i
restore-IsSound (some f) s i =
    if-IsSound (s.alarm.alarm_in_handler && (usermode s.tf && s.tf.esp == f.esp)) _ s
      (λ _. record { below = i.below; saved = λ h. absurd_flag h }) (λ _. i)

deliver-IsSound :
    (page : Bool) (s : State) → s.alarm.alarm_in_handler ≡ false → IsSound (deliver page s).alarm
unfolding deliver
deliver-IsSound page s hi =
    if-IsSound (has_page page s.alarm.alarm_tf) _ _
      (λ _. record { below = λ h _. h; saved = λ _. (s.tf, refl) })
      (λ _. record { below = λ h _. h; saved = λ h. absurd_flag (sym hi ∙ h) })

-- A count that the second test lets pass is below the interval.
below-lem :
    (i t : ℕ)
    → signed_leb i ((t + 1) % 2 ^ 32) ≡ false
    → 0 < i
    → i < 2 ^ 31
    → t < i
    → (t + 1) % 2 ^ 32 < i
unfolding signed_leb
below-lem i t e h1 h2 ht = ground arith

count-IsSound : (page : Bool) (s : State) → IsSound s.alarm → IsSound (count page s).alarm
unfolding count
count-IsSound page s i =
    let t = s.alarm.alarm_ticks in
    let more = record s { alarm = record (s.alarm) { alarm_ticks = (t + 1) % 2 ^ 32 } } in
    if-IsSound
      (usermode s.tf && (not s.alarm.alarm_in_handler && signed_ltb 0 s.alarm.alarm_interval)) _ s
      (λ e.
        let hi : s.alarm.alarm_in_handler ≡ false = not_second (usermode s.tf) _ _ e in
        if-IsSound (signed_leb s.alarm.alarm_interval ((t + 1) % 2 ^ 32)) _ _
          (λ _. deliver-IsSound page more hi)
          (λ el. record {
            below = λ h1 h2. below-lem s.alarm.alarm_interval t el h1 h2 (i.below h1 h2);
            saved = i.saved;
          }))
      (λ _. i)

-- A tick keeps the alarm sound.
tick-IsSound : (page : Bool) (s : State) → IsSound s.alarm → IsSound (tick page s).alarm
unfolding tick
tick-IsSound page s i = count-IsSound page _ (restore-IsSound s.alarm.alarm_tf s i)

sys_alarm-IsSound : (sz : ℕ) (s : State) → IsSound s.alarm → IsSound (sys_alarm sz s).1
unfolding sys_alarm
sys_alarm-IsSound sz s i =
    set_alarm-IsSound s.alarm (arg_int sz s 0) (checked_ptr sz 4 (arg_int sz s 1)) i

-- Through the whole life of a process, with any calls of `alarm`, accepted or refused, ticks in user
-- and in kernel mode, and a page found or not: the count stays below an interval that is positive as
-- an `int`, so that it does not overflow, and a handler that runs has a saved frame.
pub Life-IsSound : {s : State} → Life s → IsSound s.alarm
Life-IsSound (born f m) = no_alarm-IsSound
Life-IsSound (runs f m l) = Life-IsSound l
Life-IsSound (calls {s = s} sz l) = sys_alarm-IsSound sz s (Life-IsSound l)
Life-IsSound (ticks {s = s} page l) = tick-IsSound page s (Life-IsSound l)
