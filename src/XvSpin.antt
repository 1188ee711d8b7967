-- ===== src/XvSpin.antt =====
-- signal/alarm/spinlock.c: the spin locks of the xv6 kernel on several processors, with the nesting of
-- `pushcli` and `popcli`. A processor is its number, and so is a lock.
pub mod Owners
pub mod Exclusion
pub mod Runs
pub mod Excludes
mod Tests
use mephi_os_labs.Prelude.{
  ℕ, ◌+◌, ◌-◌, ◌<◌, ◌≡◌, Bool, true, false, ◌&&◌, Option, none, some, List, [], ◌∷◌, ◌==◌,
  if◌then◌else◌,
}

-- `ncli` and `intena` of `struct cpu`, and the interrupt flag of the processor.
pub record Cpu : Type 0 where
  pub ncli : ℕ
  pub intena : Bool
  pub interrupts : Bool

-- `locked` and `cpu` of `struct spinlock`.
pub record SpinLock : Type 0 where
  pub locked : Bool
  pub cpu : Option ℕ

-- `initlock`
abbrev pub initlock : SpinLock
initlock = record { locked = false; cpu = none }

-- `pushcli`, for a depth below 2^31.
abbrev pub pushcli : Cpu → Cpu
pushcli c = record {
  ncli = c.ncli + 1;
  intena = if c.ncli == 0 then c.interrupts else c.intena;
  interrupts = false;
}

-- `popcli`, none for a panic.
abbrev pub popcli : Cpu → Option Cpu
popcli c =
    if c.interrupts
    then none
    else if c.ncli == 0
    then none
    else some (record c { ncli = c.ncli - 1; interrupts = c.ncli == 1 && c.intena })

abbrev pub is_cpu : Option ℕ → ℕ → Bool
is_cpu none c = false
is_cpu (some d) c = d == c

-- `holding`
abbrev pub holding : SpinLock → ℕ → Bool
holding lk c = lk.locked && is_cpu lk.cpu c

-- Where a processor stands in `acquire` and `release`.
pub data Pc : Type 0 where
  outside : Pc  -- in neither
  spin : ℕ → Pc  -- `acquire`: before the exchange
  record_owner : ℕ → Pc  -- `acquire`: before the store to `lk->cpu`
  unlock : ℕ → Pc  -- `release`: before the store to `lk->locked`
  before_popcli : Pc  -- `release`: before `popcli`

-- A processor with the locks that its code has acquired and not released, and the calls of `pushcli` that
-- its code has made and not undone.
pub record Processor : Type 0 where
  pub cpu : Cpu
  pub pc : Pc
  pub held : List ℕ
  pub pushed : ℕ

abbrev pub assign {ℓ} : {A : Type ℓ} → (ℕ → A) → ℕ → A → ℕ → A
assign f i a j = if j == i then a else f j

unfoldable pub take_out : ℕ → List ℕ → List ℕ
take_out l [] = []
take_out l (k ∷ ks) = let rest = take_out l ks in if k == l then ks else k ∷ rest

-- What the processor `c` does to the locks and to itself in one step that does not panic.
pub data Move (lock : ℕ → SpinLock) (c : ℕ) (p : Processor)
    : (ℕ → SpinLock) → Processor → Type 0 where
  -- Code outside of any nesting turns interrupts on or off.
  set_interrupts :
      (b : Bool)
      → p.pc ≡ outside
      → p.cpu.ncli ≡ 0
      → Move lock c p lock (record p { cpu = record p.cpu { interrupts = b } })
  push :
      p.pc ≡ outside → Move lock c p lock (record p { cpu = pushcli p.cpu; pushed = p.pushed + 1 })
  pop :
      {q : Cpu}
      → p.pc ≡ outside
      → 0 < p.pushed
      → popcli p.cpu ≡ some q
      → Move lock c p lock (record p { cpu = q; pushed = p.pushed - 1 })
  -- `acquire` up to its loop.
  acquire :
      (l : ℕ)
      → p.pc ≡ outside
      → holding (lock l) c ≡ false
      → Move lock c p lock (record p { cpu = pushcli p.cpu; pc = spin l })
  -- The exchange finds the lock taken.
  again : (l : ℕ) → p.pc ≡ spin l → (lock l).locked ≡ true → Move lock c p lock p
  take_lock :
      (l : ℕ)
      → p.pc ≡ spin l
      → (lock l).locked ≡ false
      → Move lock c p
          (assign lock l (record (lock l) { locked = true }))
          (record p { pc = record_owner l })
  acquired :
      (l : ℕ)
      → p.pc ≡ record_owner l
      → Move lock c p
          (assign lock l (record (lock l) { cpu = some c }))
          (record p { pc = outside; held = l ∷ p.held })
  -- `release` up to the store of the owner.
  release :
      (l : ℕ)
      → p.pc ≡ outside
      → holding (lock l) c ≡ true
      → Move lock c p
          (assign lock l (record (lock l) { cpu = none }))
          (record p { pc = unlock l; held = take_out l p.held })
  unlocked :
      (l : ℕ)
      → p.pc ≡ unlock l
      → Move lock c p
          (assign lock l (record (lock l) { locked = false }))
          (record p { pc = before_popcli })
  released :
      {q : Cpu}
      → p.pc ≡ before_popcli
      → popcli p.cpu ≡ some q
      → Move lock c p lock (record p { cpu = q; pc = outside })

pub record System : Type 0 where
  pub lock : ℕ → SpinLock
  pub processor : ℕ → Processor

-- Locks as `initlock` leaves them, and processors with no lock and no nesting.
pub record IsInitial (s : System) : Type 0 where
  pub unlocked : (l : ℕ) → s.lock l ≡ initlock
  pub outside : (c : ℕ) → (s.processor c).pc ≡ outside
  pub none_held : (c : ℕ) → (s.processor c).held ≡ []
  pub none_pushed : (c : ℕ) → (s.processor c).pushed ≡ 0
  pub not_nested : (c : ℕ) → (s.processor c).cpu.ncli ≡ 0

-- The states that steps of the processors reach in any order.
pub data Reach : System → Type 0 where
  initial : {s : System} → IsInitial s → Reach s
  step :
      {s : System} {lock : ℕ → SpinLock} {p : Processor} (c : ℕ)
      → Reach s
      → Move s.lock c (s.processor c) lock p
      → Reach (record { lock = lock; processor = assign s.processor c p })
