-- ===== src/Alarm/Calls.antt =====
-- Runs of ticks, with what the program does between them.
use mephi_os_labs.Prelude.{
  ℕ, ◌+◌, ◌<◌, ◌≡◌, ap, ◌∙◌, Bool, true, false, List, [], ◌∷◌, ◌++◌, arith, length, All,
}
use mephi_os_labs.Alarm.{TrapFrame, Alarm, State, usermode, has_page, tick}
use mephi_os_labs.Alarm.Period.{IsOn, counted, count-waiting, count-due, tick-count}

-- What a tick finds: the registers and the memory, and whether a page is free.
pub record Tick : Type 0 where
  pub page : Bool
  pub tf : TrapFrame
  pub memory : ℕ → ℕ

abbrev pub state_at : Alarm → Tick → State
state_at a t = record { alarm = a; tf = t.tf; memory = t.memory }

-- The states behind the ticks; the program leaves the alarm alone.
unfoldable pub run : Alarm → List Tick → List State
run a [] = []
run a (t ∷ ts) = let s = tick t.page (state_at a t) in s ∷ run s.alarm ts

abbrev pub eips : List State → List ℕ
eips [] = []
eips (s ∷ ss) = s.tf.eip ∷ eips ss

abbrev pub interrupted : List Tick → List ℕ
interrupted [] = []
interrupted (t ∷ ts) = t.tf.eip ∷ interrupted ts

abbrev pub InUser : Tick → Type 0
InUser t = usermode t.tf ≡ true

run-waiting :
    (a : Alarm) (t : Tick) (ts : List Tick)
    → a.alarm_in_handler ≡ false
    → IsOn a
    → InUser t
    → a.alarm_ticks + 1 < a.alarm_interval
    → eips (run a (t ∷ ts)) ≡ t.tf.eip ∷ eips (run (counted a (a.alarm_ticks + 1)) ts)
unfolding run
run-waiting a t ts hi on hu h =
    ap (λ s. s.tf.eip ∷ eips (run s.alarm ts))
      (tick-count t.page (state_at a t) hi ∙ count-waiting t.page (state_at a t) hu hi on h)

run-due :
    (a : Alarm) (t : Tick)
    → a.alarm_in_handler ≡ false
    → IsOn a
    → InUser t
    → a.alarm_ticks + 1 ≡ a.alarm_interval
    → has_page t.page a.alarm_tf ≡ true
    → eips (run a (t ∷ [])) ≡ a.alarm_handler ∷ []
unfolding run
run-due a t hi on hu h hp =
    ap (λ s. s.tf.eip ∷ [])
      (tick-count t.page (state_at a t) hi ∙ count-due t.page (state_at a t) hu hi on h hp)

-- With a positive interval and outside the handler, the ticks in user mode before the interval is
-- over let the program go on where it was, and the tick that makes the count equal to the interval
-- goes to the handler, if there is a page for the frame.
pub handler_periodic :
    (a : Alarm) (ts : List Tick) (t : Tick)
    → a.alarm_in_handler ≡ false
    → IsOn a
    → All InUser ts
    → InUser t
    → a.alarm_ticks + length ts + 1 ≡ a.alarm_interval
    → has_page t.page a.alarm_tf ≡ true
    → eips (run a (ts ++ t ∷ [])) ≡ interrupted ts ++ a.alarm_handler ∷ []
handler_periodic a [] t hi on hs hu h hp = run-due a t hi on hu (omega arith) hp
handler_periodic a (x ∷ xs) t hi on (hx, hs) hu h hp =
    run-waiting a x (xs ++ t ∷ []) hi on hx (omega arith)
    ∙ ap (λ r. x.tf.eip ∷ r)
        (handler_periodic (counted a (a.alarm_ticks + 1)) xs t hi
          (record { positive = on.positive; small = on.small }) hs hu (omega arith) hp)
