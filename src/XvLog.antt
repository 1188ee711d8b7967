-- ===== src/XvLog.antt =====
-- signal/alarm/log.c: the redo log of the file system. A block is a value of a type that the development
-- leaves open; the cache is what `bread` gives, and the disk is known by the writes that `bwrite` has
-- sent to it, in order. What bio.c does for it (a block that is dirty stays in the cache) is taken in.
pub mod Disk
pub mod Replay
pub mod Pending
pub mod Crash
pub mod Commit
pub mod Space
pub mod Transaction
mod Tests
use mephi_os_labs.Prelude.{
  ℕ, ◌+◌, ◌-◌, ◌*◌, ◌%◌, ◌^◌, ◌≤◌, ◌<◌, ◌≡◌, Bool, true, false, ◌||◌, Option, none, some, List, [],
  ◌∷◌, ◌++◌, ltb, leb, ◌==◌, if◌then◌else◌, length, All,
}

-- A block seen as a `struct logheader`: the first `n` entries of `block`.
pub record Layout (B : Type 0) : Type 0 where
  pub header : B → List ℕ
  pub with_header : List ℕ → B → B

-- LOGSIZE and MAXOPBLOCKS
abbrev pub logsize : ℕ
logsize = 30

abbrev pub maxopblocks : ℕ
maxopblocks = 10

-- What is stored into a header is read back from it, for as many 32-bit numbers as fit.
abbrev pub IsLayout : {B : Type 0} → Layout B → Type 0
IsLayout {B} layout =
    (bs : List ℕ) (b : B)
    → length bs ≤ logsize
    → All (λ x. x < 2 ^ 32) bs
    → layout.header (layout.with_header bs b) ≡ bs

pub record Machine (B : Type 0) : Type 0 where
  pub cache : ℕ → B
  pub writes : List (ℕ × B)

abbrev pub store {ℓ} : {B : Type ℓ} → (ℕ → B) → ℕ → B → ℕ → B
store f b v q = if q == b then v else f q

-- `bwrite` of the block `b` with the data `v`.
abbrev pub bwrite : {B : Type 0} → ℕ → B → Machine B → Machine B
bwrite b v m = record { cache = store m.cache b v; writes = m.writes ++ (b, v) ∷ [] }

-- `struct log`: its header is the list of the `n` blocks.
pub record Log : Type 0 where
  pub start : ℕ
  pub size : ℕ
  pub outstanding : ℕ
  pub committing : Bool
  pub lh : List ℕ

-- The loop of `write_log` from `tail` on.
unfoldable pub write_log : {B : Type 0} → ℕ → ℕ → List ℕ → Machine B → Machine B
write_log start tail [] m = m
write_log start tail (b ∷ bs) m =
    write_log start (tail + 1) bs (bwrite (start + tail + 1) (m.cache b) m)

-- The loop of `install_trans` from `tail` on.
unfoldable pub install_trans : {B : Type 0} → ℕ → ℕ → List ℕ → Machine B → Machine B
install_trans start tail [] m = m
install_trans start tail (b ∷ bs) m =
    install_trans start (tail + 1) bs (bwrite b (m.cache (start + tail + 1)) m)

module _ {B : Type 0} (layout : Layout B) where
  -- `write_head`
  abbrev pub write_head : ℕ → List ℕ → Machine B → Machine B
  write_head start lh m = bwrite start (layout.with_header lh (m.cache start)) m

  -- `commit`
  unfoldable pub commit : ℕ → List ℕ → Machine B → Machine B
  commit start [] m = m
  commit start (b ∷ bs) m =
      write_head start []
        (install_trans start 0 (b ∷ bs) (write_head start (b ∷ bs) (write_log start 0 (b ∷ bs) m)))

  -- `recover_from_log`, with `read_head`.
  unfoldable pub recover_from_log : ℕ → Machine B → Machine B
  recover_from_log start m =
      write_head start [] (install_trans start 0 (layout.header (m.cache start)) m)

  -- `end_op` from its call of `commit` on.
  unfoldable pub end_commit : Log → Machine B → Log × Machine B
  unfolding commit
  end_commit l m = (record l { committing = false; lh = [] }, commit l.start l.lh m)

-- `initlog` up to the recovery, with what the superblock says.
abbrev pub initlog : ℕ → ℕ → Log
initlog logstart nlog = record {
  start = logstart;
  size = nlog;
  outstanding = 0;
  committing = false;
  lh = [];
}

-- One round of the loop of `begin_op`: none where it sleeps.
unfoldable pub begin_op : Log → Option Log
begin_op l =
    if l.committing || ltb logsize (length l.lh + (l.outstanding + 1) * maxopblocks)
    then none
    else some (record l { outstanding = l.outstanding + 1 })

abbrev pub last_op : Log → Bool × Log
last_op l = if l.outstanding == 0 then (true, record l { committing = true }) else (false, l)

-- `end_op` up to the release of the lock, none for a panic; the result says whether it commits.
unfoldable pub end_op : Log → Option (Bool × Log)
end_op l =
    if l.committing
    then none
    else some (last_op (record l { outstanding = (l.outstanding + (2 ^ 32 - 1)) % 2 ^ 32 }))

-- The loop of `log_write` and what it stores.
unfoldable pub absorb : List ℕ → ℕ → List ℕ
absorb [] b = b ∷ []
absorb (x ∷ xs) b = let rest = absorb xs b in if x == b then b ∷ xs else x ∷ rest

-- `log_write` of the block `b`, none for a panic.
unfoldable pub log_write : ℕ → Log → Option Log
unfolding absorb
log_write b l =
    if leb logsize (length l.lh) || (leb (l.size - 1) (length l.lh) || ltb l.outstanding 1)
    then none
    else some (record l { lh = absorb l.lh b })
