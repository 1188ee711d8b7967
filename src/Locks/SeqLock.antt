-- ===== src/Locks/SeqLock.antt =====
-- atomic/seqlock/seqlock.h over atomic/seqlock/spinlock.h, with the client's two shared words of
-- atomic/seqlock/main.c: readers take copies of both, writers store any values into them.
pub mod Invariant
pub mod Snapshot
use mephi_os_labs.Prelude.{ℕ, ◌+◌, ◌%◌, ◌<◌, ◌≡◌, ◌≢◌, Bool, true, false, ◌&&◌, ◌==◌}
use mephi_os_labs.Locks.Atomic.{atomic_add, atomic_xchg}
use mephi_os_labs.Locks.Threads.{assign}

-- `struct SeqLock` (`lock.atomic_locked` and `atomic_seq`), and the words that it guards.
pub record SeqLock : Type 0 where
  pub locked : ℕ
  pub seq : ℕ
  pub first : ℕ
  pub second : ℕ

-- `SeqLock_Init`, with both words 0.
abbrev pub init : SeqLock
init = record { locked = 0; seq = 0; first = 0; second = 0 }

-- The value of `SeqLock_ReadUnlock`, with the sequence number that it loads.
abbrev pub read_unlock : ℕ → ℕ → Bool
read_unlock end start = end == start && start % 2 == 0

-- Where a thread stands, with its local variables.
pub data Pc : Type 0 where
  idle : Pc
  got_seq : (start : ℕ) → Pc  -- behind `ReadLock`
  got_first : (start a : ℕ) → Pc
  got_both : (start a b : ℕ) → Pc  -- before `ReadUnlock`
  accepted : (a b : ℕ) → Pc  -- behind the loop of the reader
  spin : Pc  -- `WriteLock`: the exchange in `SpinLock_Lock`
  owner : Pc  -- `WriteLock`: the addition
  inside : Pc  -- between `WriteLock` and the addition of `WriteUnlock`
  leaving : Pc  -- `WriteUnlock`: the exchange in `SpinLock_Unlock`

-- One access of one thread.
pub data Move (m : SeqLock) : Pc → SeqLock → Pc → Type 0 where
  read_lock : Move m idle m (got_seq m.seq)
  read_first : {s : ℕ} → Move m (got_seq s) m (got_first s m.first)
  read_second : {s a : ℕ} → Move m (got_first s a) m (got_both s a m.second)
  read_again : {s a b : ℕ} → read_unlock m.seq s ≡ false → Move m (got_both s a b) m idle
  read_accept : {s a b : ℕ} → read_unlock m.seq s ≡ true → Move m (got_both s a b) m (accepted a b)
  read_done : {a b : ℕ} → Move m (accepted a b) m idle
  write_lock : Move m idle m spin
  spin_locked :
      (atomic_xchg m.locked 1).1 ≢ 0
      → Move m spin (record m { locked = (atomic_xchg m.locked 1).0 }) spin
  spin_free :
      (atomic_xchg m.locked 1).1 ≡ 0
      → Move m spin (record m { locked = (atomic_xchg m.locked 1).0 }) owner
  enter : Move m owner (record m { seq = atomic_add m.seq 1 }) inside
  store_first : {v : ℕ} → Move m inside (record m { first = v }) inside
  store_second : {v : ℕ} → Move m inside (record m { second = v }) inside
  exit : Move m inside (record m { seq = atomic_add m.seq 1 }) leaving
  unlock : Move m leaving (record m { locked = (atomic_xchg m.locked 0).0 }) idle

pub record System : Type 0 where
  pub lock : SeqLock
  pub pc : ℕ → Pc

pub data Step (n : ℕ) (s : System) : System → Type 0 where
  move :
      (i : ℕ) {m : SeqLock} {p : Pc}
      → i < n
      → Move s.lock (s.pc i) m p
      → Step n s (record { lock = m; pc = assign s.pc i p })

abbrev pub start : System
start = record { lock = init; pc = λ _. idle }

-- The states that `n` threads can reach in `k` steps.
pub data Reach (n : ℕ) : ℕ → System → Type 0 where
  begin : {k : ℕ} → k ≡ 0 → Reach n k start
  later : {k l : ℕ} {s t : System} → Reach n k s → Step n s t → l ≡ k + 1 → Reach n l t
