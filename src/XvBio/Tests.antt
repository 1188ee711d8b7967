-- ===== src/XvBio/Tests.antt =====
-- A cache of two buffers, over blocks that are numbers.
use mephi_os_labs.Prelude.{ℕ, ◌+◌, true, false, [], ◌∷◌}
use mephi_os_labs.XvBio.{Bcache, put_buf}

abbrev fresh : Bcache ℕ
fresh = record {
  buf = λ i. record {
    dev = 0;
    blockno = 0;
    valid = false;
    dirty = false;
    refcnt = 0;
    locked = false;
    content = 0;
  };
  list = 1 ∷ 0 ∷ [];
  disk = λ d c. 100 + c;
}

-- Block 5 in the buffer 0.
abbrev cached : Bcache ℕ
cached = record fresh {
  buf = put_buf fresh.buf 0 (record (fresh.buf 0) { dev = 1; blockno = 5; refcnt = 1 });
}

abbrev locked : Bcache ℕ
locked = record cached { buf = put_buf cached.buf 0 (record (cached.buf 0) { locked = true }) }
