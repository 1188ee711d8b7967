-- ===== src/XvLog/Tests.antt =====
-- A transaction of two blocks, over blocks that are lists of numbers.
use mephi_os_labs.Prelude.{
  ℕ, zero, suc, ◌+◌, ◌≡◌, refl, ◌⊎◌, inl, inr, true, false, ◌||◌, none, some, List, [], ◌∷◌, arith,
  ◌==◌, Bool-cases, take,
}
use mephi_os_labs.XvLog.{
  Layout, IsLayout, Log, store, write_log, install_trans, commit, recover_from_log, initlog,
  begin_op, absorb, log_write,
}
use mephi_os_labs.XvLog.Disk.{applied}
use mephi_os_labs.XvLog.Pending.{contains, IsSettled}
use mephi_os_labs.XvLog.Crash.{recovery, Reboots}
use mephi_os_labs.XvLog.Commit.{IsOpen, commit_writes, commit-atomic, commit-durable}
use mephi_os_labs.XvLog.Space.{Ops, IsReserved, Ops-IsReserved}
use mephi_os_labs.XvLog.Transaction.{absorb-IsOpen}

abbrev Block : Type 0
Block = List ℕ

abbrev plain : Layout Block
plain = record { header = λ b. b; with_header = λ bs b. bs }

plain-IsLayout : IsLayout plain
plain-IsLayout bs b h w = refl

abbrev disk : ℕ → Block
disk q = []

abbrev cache : ℕ → Block
cache = store (store disk 50 (7 ∷ [])) 60 (8 ∷ [])

abbrev logged : List ℕ
logged = 50 ∷ 60 ∷ []

two-IsOpen : IsOpen plain plain-IsLayout 2 31 logged disk cache
unfolding contains
two-IsOpen = record {
  header = record {
    data_blocks = (inr (omega arith), (inr (omega arith), tt));
    room = omega arith;
    fits = omega arith;
    words = (omega arith, (omega arith, tt));
  };
  empty = refl;
  pinned = λ q _. at q;
}
  where
    at : (q : ℕ) → (((q == 50) || ((q == 60) || false)) ≡ true) ⊎ (disk q ≡ cache q)
    at q = elim (Bool-cases (q == 50)) [
      | inl e ↦ inl (rw e refl)
      | inr e ↦ elim (Bool-cases (q == 60)) [
        | inl f ↦ inl (rw (e, f) refl)
        | inr f ↦ inr (rw (e, f) refl)
      ]
    ]

-- The disk after the log, the header and one of the two blocks.
abbrev crashed : ℕ → Block
crashed = applied disk (take 4 (commit_writes plain plain-IsLayout 2 31 logged cache))

-- The recovery behind it is cut off after a block.
abbrev crashed_again : ℕ → Block
crashed_again = applied crashed (take 1 (recovery plain plain-IsLayout 2 31 crashed))

recovered-60 : applied crashed_again (recovery plain plain-IsLayout 2 31 crashed_again) 60 ≡ 8 ∷ []
unfolding applied recovery recover_from_log commit_writes commit write_log install_trans
recovered-60 = refl

commit-atomic_example :
    IsSettled plain 2 31 disk
      (applied crashed_again (recovery plain plain-IsLayout 2 31 crashed_again))
    ⊎ IsSettled plain 2 31 cache
        (applied crashed_again (recovery plain plain-IsLayout 2 31 crashed_again))
commit-atomic_example =
    commit-atomic plain plain-IsLayout 2 31 logged disk cache 4 two-IsOpen
      (Reboots.crash 1 Reboots.here)

abbrev finished : ℕ → Block
finished = applied disk (commit_writes plain plain-IsLayout 2 31 logged cache)

commit-durable_example :
    IsSettled plain 2 31 cache finished
    × IsSettled plain 2 31 cache (applied finished (recovery plain plain-IsLayout 2 31 finished))
commit-durable_example =
    commit-durable plain plain-IsLayout 2 31 logged disk cache two-IsOpen Reboots.here

abbrev one : Log
one = record (initlog 2 31) { outstanding = 1 }

one-Ops : Ops plain 2 31 one (0 ∷ [])
unfolding begin_op
one-Ops = Ops.begins refl Ops.init

Ops-IsReserved_example : IsReserved 31 one (0 ∷ [])
Ops-IsReserved_example = Ops-IsReserved one-Ops

absorb-IsOpen_example :
    IsOpen plain plain-IsLayout 2 31 (absorb logged 70) disk (store cache 70 (9 ∷ []))
absorb-IsOpen_example =
    absorb-IsOpen plain plain-IsLayout 2 31 logged disk cache 70 (9 ∷ []) two-IsOpen
      (inr (omega arith)) (omega arith) (omega arith) (omega arith)

abbrev numbers : ℕ → List ℕ
numbers zero = []
numbers (suc n) = (n + 100) ∷ numbers n

-- The log as mkfs.c makes it has 30 blocks: three operations with ten blocks each are let in, and the
-- thirtieth block is refused.
abbrev mkfs_log : ℕ → Log
mkfs_log n = record { start = 2; size = 30; outstanding = 3; committing = false; lh = numbers n }

third_op : begin_op (record (mkfs_log 0) { outstanding = 2 }) ≡ some (mkfs_log 0)
unfolding begin_op
third_op = refl

thirtieth_block : log_write 200 (mkfs_log 29) ≡ none
unfolding log_write
thirtieth_block = refl
