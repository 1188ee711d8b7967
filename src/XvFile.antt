-- ===== src/XvFile.antt =====
-- signal/alarm/file.c: the table of open files of xv6 with its counts of references, and the reading and
-- writing of a file. A file is its index in the table.
pub mod Counts
pub mod Write
mod Tests
use mephi_os_labs.Prelude.{
  ℕ, zero, suc, ◌+◌, ◌-◌, ◌*◌, ◌/◌, ◌%◌, ◌^◌, Bool, Option, none, some, ltb, ◌==◌, if◌then◌else◌,
}

-- The type of a file.
pub data FileType : Type 0 where
  fd_none : FileType
  fd_pipe : FileType
  fd_inode : FileType

-- `struct file`; pipes and inodes are numbers.
pub record File : Type 0 where
  pub kind : FileType
  pub ref : ℕ
  pub readable : Bool
  pub writable : Bool
  pub pipe : ℕ
  pub ip : ℕ
  pub off : ℕ

-- `NFILE`
abbrev pub nfile : ℕ
nfile = 100

abbrev pub put_file : (ℕ → File) → ℕ → File → ℕ → File
put_file t f x g = if g == f then x else t g

-- The loop of `filealloc` from the file `f` on, with `n` to go.
unfoldable pub find_unused : (ℕ → File) → ℕ → ℕ → Option ℕ
find_unused t zero f = none
find_unused t (suc n) f =
    let rest = find_unused t n (f + 1) in if (t f).ref == 0 then some f else rest

abbrev pub allocated_file : (ℕ → File) → Option ℕ → Option (ℕ × (ℕ → File))
allocated_file t none = none
allocated_file t (some f) = some (f, put_file t f (record (t f) { ref = 1 }))

-- `filealloc`, none for NULL.
unfoldable pub filealloc : (ℕ → File) → Option (ℕ × (ℕ → File))
unfolding find_unused
filealloc t = allocated_file t (find_unused t nfile 0)

-- `filedup`, none for a panic, for fewer than 2^31 references.
unfoldable pub filedup : (ℕ → File) → ℕ → Option (ℕ → File)
filedup t f =
    if ltb (t f).ref 1 then none else some (put_file t f (record (t f) { ref = (t f).ref + 1 }))

-- What `fileclose` calls behind the table.
pub data Closing : Type 0 where
  still_open : Closing
  no_file : Closing
  close_pipe : ℕ → Bool → Closing
  iput : ℕ → Closing

abbrev pub closing : FileType → File → Closing
closing fd_none f = no_file
closing fd_pipe f = close_pipe f.pipe f.writable
closing fd_inode f = iput f.ip

-- `fileclose`, none for a panic.
unfoldable pub fileclose : (ℕ → File) → ℕ → Option (Closing × (ℕ → File))
fileclose t f =
    if ltb (t f).ref 1
    then none
    else if ltb 0 ((t f).ref - 1)
    then some (still_open, put_file t f (record (t f) { ref = (t f).ref - 1 }))
    else some (closing (t f).kind (t f), put_file t f (record (t f) { ref = 0; kind = fd_none }))

-- What `filewrite` gives: the count that was asked for, -1, or a panic.
pub data WriteResult : Type 0 where
  all_written : ℕ → WriteResult
  failed : WriteResult
  short_filewrite : WriteResult

-- `((MAXOPBLOCKS-1-1-2) / 2) * 512`
abbrev pub max_chunk : ℕ
max_chunk = (10 - 1 - 1 - 2) / 2 * 512

abbrev pub chunk : ℕ → ℕ → ℕ
chunk i n = if ltb max_chunk (n - i) then max_chunk else n - i

-- The offset behind a call of `writei` that gave `k`.
abbrev pub advanced : ℕ → ℕ → ℕ
advanced off k = if ltb 0 k then (off + k) % 2 ^ 32 else off

module _ {W : Type 0} where
  -- A round of `filewrite` behind `writei`.
  abbrev pub after_writei :
      (ℕ → Option (WriteResult × ℕ × W)) → ℕ → ℕ → ℕ → Option ℕ → W → Option (WriteResult × ℕ × W)
  after_writei go_on off i n none w = some (failed, off, w)
  after_writei go_on off i n (some k) w =
      if k == chunk i n then go_on k else some (short_filewrite, advanced off k, w)

-- `writei` in its transaction changes the disk, and gives the count written, or none for -1.
module _ {W : Type 0} (writei : W → ℕ → ℕ → ℕ → Option ℕ × W) where
  -- The loop of `filewrite`: the result, the offset and the disk; none where the fuel is spent.
  unfoldable pub write_from : ℕ → ℕ → ℕ → ℕ → ℕ → W → Option (WriteResult × ℕ × W)
  write_from zero addr n i off w = none
  write_from (suc fuel) addr n i off w =
      let r = writei w (addr + i) off (chunk i n) in
      if ltb i n
      then after_writei (λ k. write_from fuel addr n (i + k) (advanced off k) r.1) off i n r.0 r.1
      else some (if i == n then all_written n else failed, off, w)

  -- `filewrite` of an inode, for `n` that is not negative.
  unfoldable pub filewrite : File → ℕ → ℕ → W → Option (WriteResult × ℕ × W)
  unfolding write_from
  filewrite f addr n w =
      if f.writable then write_from (n + 1) addr n 0 f.off w else some (failed, f.off, w)
