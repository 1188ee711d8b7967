-- ===== src/Locks/RwLock.antt =====
-- atomic/rwlock/rwlock.h over atomic/rwlock/spinlock.h: a thread reads or writes under the lock, and
-- moves from one access to the lock's two words to the next.
pub mod Invariant
pub mod Safety
pub mod Progress
use mephi_os_labs.Prelude.{ℕ, ◌<◌, ◌≡◌, ◌≢◌}
use mephi_os_labs.Locks.Atomic.{atomic_add, atomic_sub, atomic_xchg}
use mephi_os_labs.Locks.Threads.{assign}

-- `struct RwLock`: `write_m.atomic_locked` and `atomic_readers_cnt`.
pub record RwLock : Type 0 where
  pub locked : ℕ
  pub readers_cnt : ℕ

-- `RwLock_Init`
abbrev pub init : RwLock
init = record { locked = 0; readers_cnt = 0 }

-- Where a thread stands: before the access that is named.
pub data Pc : Type 0 where
  idle : Pc  -- outside both locks
  await : Pc  -- `ReadLock`: the load of `atomic_locked` in the inner loop
  announce : Pc  -- `ReadLock`: the addition to the counter
  check : Pc  -- `ReadLock`: the second load
  retreat : Pc  -- `ReadLock`: the subtraction
  reading : Pc  -- between `ReadLock` and the subtraction of `ReadUnlock`
  spin : Pc  -- `WriteLock`: the exchange in `SpinLock_Lock`
  drain : Pc  -- `WriteLock`: the load of the counter
  writing : Pc  -- between `WriteLock` and the exchange of `SpinLock_Unlock`

-- One access of one thread.
pub data Move (m : RwLock) : Pc → RwLock → Pc → Type 0 where
  read_lock : Move m idle m await
  await_locked : m.locked ≢ 0 → Move m await m await
  await_free : m.locked ≡ 0 → Move m await m announce
  announced : Move m announce (record m { readers_cnt = atomic_add m.readers_cnt 1 }) check
  check_free : m.locked ≡ 0 → Move m check m reading
  check_locked : m.locked ≢ 0 → Move m check m retreat
  retreated : Move m retreat (record m { readers_cnt = atomic_sub m.readers_cnt 1 }) await
  read_unlock : Move m reading (record m { readers_cnt = atomic_sub m.readers_cnt 1 }) idle
  write_lock : Move m idle m spin
  spin_locked :
      (atomic_xchg m.locked 1).1 ≢ 0
      → Move m spin (record m { locked = (atomic_xchg m.locked 1).0 }) spin
  spin_free :
      (atomic_xchg m.locked 1).1 ≡ 0
      → Move m spin (record m { locked = (atomic_xchg m.locked 1).0 }) drain
  drain_readers : m.readers_cnt ≢ 0 → Move m drain m drain
  drained : m.readers_cnt ≡ 0 → Move m drain m writing
  write_unlock : Move m writing (record m { locked = (atomic_xchg m.locked 0).0 }) idle

-- The lock and its threads; a number from the count of threads on names no thread.
pub record System : Type 0 where
  pub lock : RwLock
  pub pc : ℕ → Pc

pub data Step (n : ℕ) (s : System) : System → Type 0 where
  move :
      (i : ℕ) {m : RwLock} {p : Pc}
      → i < n
      → Move s.lock (s.pc i) m p
      → Step n s (record { lock = m; pc = assign s.pc i p })

abbrev pub start : System
start = record { lock = init; pc = λ _. idle }

-- The states that `n` threads can reach.
pub data Reach (n : ℕ) : System → Type 0 where
  begin : Reach n start
  later : {s t : System} → Reach n s → Step n s t → Reach n t
