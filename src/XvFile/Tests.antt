-- ===== src/XvFile/Tests.antt =====
-- A table with one file, and writes to a disk that is a number.
use mephi_os_labs.Prelude.{ℕ, ◌+◌, ◌≡◌, refl, true, false, Option, some}
use mephi_os_labs.XvFile.{
  fd_none, fd_inode, File, put_file, iput, fileclose, all_written, write_from, filewrite,
}

abbrev closed : File
closed = record {
  kind = fd_none;
  ref = 0;
  readable = false;
  writable = false;
  pipe = 0;
  ip = 0;
  off = 0;
}

abbrev table : ℕ → File
table f = closed

abbrev opened : ℕ → File
opened = put_file table 0 (record closed { ref = 1 })

abbrev inode : File
inode = record closed { kind = fd_inode; ref = 1; writable = true; ip = 7; off = 100 }

fileclose_last :
    fileclose (put_file table 2 inode) 2
    ≡ some (iput 7, put_file (put_file table 2 inode) 2 (record inode { ref = 0; kind = fd_none }))
unfolding fileclose
fileclose_last = refl

-- A disk that counts the bytes written.
abbrev writei : ℕ → ℕ → ℕ → ℕ → Option ℕ × ℕ
writei w addr off n = (some n, w + n)

filewrite_chunks : filewrite writei inode 0 4000 0 ≡ some (all_written 4000, 4100, 4000)
unfolding filewrite write_from
filewrite_chunks = refl
