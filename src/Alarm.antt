-- ===== src/Alarm.antt =====
-- signal/alarm: the system call `alarm` that is added to xv6, in sysproc.c, and its part of the timer
-- interrupt in trap.c. An `int` or `uint` is its 32-bit pattern, the user's memory a function from
-- addresses to bytes. A trap from user mode puts its frame where `p->tf` points, so the frame is one.
pub mod Words
pub mod Invariant
pub mod Period
pub mod Calls
pub mod Handling
mod Tests
use mephi_os_labs.Prelude.{
  ℕ, ◌+◌, ◌-◌, ◌*◌, ◌/◌, ◌%◌, ◌^◌, Bool, true, false, not, ◌&&◌, ◌||◌, Option, none, some, ltb, leb,
  ◌==◌, if◌then◌else◌,
}

-- `struct trapframe` without its padding.
pub record TrapFrame : Type 0 where
  pub edi : ℕ
  pub esi : ℕ
  pub ebp : ℕ
  pub oesp : ℕ
  pub ebx : ℕ
  pub edx : ℕ
  pub ecx : ℕ
  pub eax : ℕ
  pub gs : ℕ
  pub fs : ℕ
  pub es : ℕ
  pub ds : ℕ
  pub trapno : ℕ
  pub err : ℕ
  pub eip : ℕ
  pub cs : ℕ
  pub eflags : ℕ
  pub esp : ℕ
  pub ss : ℕ

-- The fields that `struct proc` gets; `alarm_tf` is what the page holds, once there is one.
pub record Alarm : Type 0 where
  pub alarm_interval : ℕ
  pub alarm_ticks : ℕ
  pub alarm_handler : ℕ
  pub alarm_in_handler : Bool
  pub alarm_tf : Option TrapFrame

-- A process in user mode: its alarm, its registers and its memory.
pub record State : Type 0 where
  pub alarm : Alarm
  pub tf : TrapFrame
  pub memory : ℕ → ℕ

-- What `allocproc` and `fork` set.
abbrev pub no_alarm : Alarm
no_alarm = record {
  alarm_interval = 0;
  alarm_ticks = 0;
  alarm_handler = 0;
  alarm_in_handler = false;
  alarm_tf = none;
}

-- The store and the load of a `uint`, the lowest byte first.
unfoldable pub write_word : (ℕ → ℕ) → ℕ → ℕ → ℕ → ℕ
write_word m a v q =
    if q == a
    then v % 256
    else (if q == a + 1
        then v / 256 % 256
        else (if q == a + 2
            then v / 65536 % 256
            else (if q == a + 3 then v / 16777216 % 256 else m q)))

unfoldable pub read_word : (ℕ → ℕ) → ℕ → ℕ
read_word m a = m a + 256 * m (a + 1) + 65536 * m (a + 2) + 16777216 * m (a + 3)

-- `a <= b` and `a < b` on `int`.
unfoldable pub signed_leb : ℕ → ℕ → Bool
signed_leb a b = leb ((a + 2 ^ 31) % 2 ^ 32) ((b + 2 ^ 31) % 2 ^ 32)

unfoldable pub signed_ltb : ℕ → ℕ → Bool
signed_ltb a b = ltb ((a + 2 ^ 31) % 2 ^ 32) ((b + 2 ^ 31) % 2 ^ 32)

-- `(tf->cs & 3) == DPL_USER`
abbrev pub usermode : TrapFrame → Bool
usermode f = f.cs % 4 == 3

-- The registers that are taken from the saved frame.
abbrev pub with_registers : TrapFrame → TrapFrame → TrapFrame
with_registers f s = record f {
  eax = s.eax;
  ebx = s.ebx;
  ecx = s.ecx;
  edx = s.edx;
  esi = s.esi;
  edi = s.edi;
  ebp = s.ebp;
  ds = s.ds;
  es = s.es;
  fs = s.fs;
  gs = s.gs;
}

-- The first test on the timer's interrupt, with `alarm_tf`: the end of a handler is seen.
unfoldable pub restore : Option TrapFrame → State → State
restore none s = s
restore (some saved) s =
    if s.alarm.alarm_in_handler && (usermode s.tf && s.tf.esp == saved.esp)
    then record {
      alarm = record (s.alarm) { alarm_in_handler = false };
      tf = with_registers s.tf saved;
      memory = s.memory;
    }
    else s

-- There is a page for the frame: the one it has, or that of `kalloc`.
abbrev pub has_page : Bool → Option TrapFrame → Bool
has_page page none = page
has_page page (some _) = true

-- The branch with `alarm_ticks >= alarm_interval`.
unfoldable pub deliver : Bool → State → State
deliver page s =
    let esp = (s.tf.esp + (2 ^ 32 - 4)) % 2 ^ 32 in
    let late = record (s.alarm) { alarm_ticks = 0 } in
    if has_page page s.alarm.alarm_tf
    then record {
      alarm = record late { alarm_tf = some s.tf; alarm_in_handler = true };
      tf = record (s.tf) { esp = esp; eip = s.alarm.alarm_handler };
      memory = write_word s.memory esp s.tf.eip;
    }
    else record s { alarm = late }

-- The second test: the tick counts.
unfoldable pub count : Bool → State → State
unfolding deliver signed_leb signed_ltb
count page s =
    let ticks = (s.alarm.alarm_ticks + 1) % 2 ^ 32 in
    let more = record s { alarm = record (s.alarm) { alarm_ticks = ticks } } in
    if usermode s.tf && (not s.alarm.alarm_in_handler && signed_ltb 0 s.alarm.alarm_interval)
    then (if signed_leb s.alarm.alarm_interval ticks then deliver page more else more)
    else s

-- `trap` on the timer's interrupt, for the process that it interrupts; `page` says whether `kalloc`
-- finds a page.
unfoldable pub tick : Bool → State → State
unfolding restore count
tick page s = count page (restore s.alarm.alarm_tf s)

-- `fetchint`, with the size of the process.
abbrev pub fetch_int : ℕ → (ℕ → ℕ) → ℕ → Option ℕ
fetch_int sz m addr =
    if not (ltb addr sz) || ltb sz ((addr + 4) % 2 ^ 32) then none else some (read_word m addr)

-- `argint`
abbrev pub arg_int : ℕ → State → ℕ → Option ℕ
arg_int sz s n = fetch_int sz s.memory ((s.tf.esp + 4 + 4 * n) % 2 ^ 32)

-- `argptr` behind its call of `argint`, for a `size` that is not negative.
abbrev pub checked_ptr : ℕ → ℕ → Option ℕ → Option ℕ
checked_ptr sz size none = none
checked_ptr sz size (some i) =
    if not (ltb i sz) || ltb sz ((i + size) % 2 ^ 32) then none else some i

-- `sys_alarm` behind its arguments.
abbrev pub set_alarm : Alarm → Option ℕ → Option ℕ → ℕ × Alarm
set_alarm a none h = (2 ^ 32 - 1, a)
set_alarm a (some n) none = (2 ^ 32 - 1, a)
set_alarm a (some n) (some h) = (
  0,
  record a { alarm_interval = n; alarm_ticks = 0; alarm_handler = h; alarm_in_handler = false },
)

-- `sys_alarm`: its result, and the alarm of the process.
unfoldable pub sys_alarm : ℕ → State → ℕ × Alarm
sys_alarm sz s = set_alarm s.alarm (arg_int sz s 0) (checked_ptr sz 4 (arg_int sz s 1))
