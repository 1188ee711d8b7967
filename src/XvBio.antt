-- ===== src/XvBio.antt =====
-- signal/alarm/bio.c: the buffer cache of xv6. A buffer is its index; the list through `prev` and `next`
-- is the list of the buffers from `head.next` on. The disk driver is what ide.c makes of a request.
pub mod View
pub mod Reads
pub mod Requests
pub mod Latest
pub mod Runs
pub mod Bread
mod Tests
use mephi_os_labs.Prelude.{
  ℕ, zero, suc, ◌+◌, ◌-◌, ◌%◌, ◌^◌, Bool, true, false, not, ◌&&◌, Option, none, some, List, [], ◌∷◌,
  ◌++◌, ◌==◌, if◌then◌else◌,
}

-- `struct buf`: `valid` and `dirty` are the bits of `flags`.
pub record Buf (B : Type 0) : Type 0 where
  pub dev : ℕ
  pub blockno : ℕ
  pub valid : Bool
  pub dirty : Bool
  pub refcnt : ℕ
  pub locked : Bool
  pub content : B

-- `bcache` and the disk.
pub record Bcache (B : Type 0) : Type 0 where
  pub buf : ℕ → Buf B
  pub list : List ℕ
  pub disk : ℕ → ℕ → B

-- The list that `binit` makes of `n` buffers.
unfoldable pub binit : ℕ → List ℕ
binit zero = []
binit (suc n) = n ∷ binit n

-- The first buffer of the list with a property.
unfoldable pub find_buf : (ℕ → Bool) → List ℕ → Option ℕ
find_buf f [] = none
find_buf f (i ∷ is) = let rest = find_buf f is in if f i then some i else rest

unfoldable pub backwards : List ℕ → List ℕ
backwards [] = []
backwards (i ∷ is) = backwards is ++ i ∷ []

unfoldable pub remove : ℕ → List ℕ → List ℕ
remove i [] = []
remove i (j ∷ js) = let rest = remove i js in if j == i then rest else j ∷ rest

module _ {B : Type 0} where
  abbrev pub put_buf : (ℕ → Buf B) → ℕ → Buf B → ℕ → Buf B
  put_buf f i b j = if j == i then b else f j

  abbrev pub put_block : (ℕ → ℕ → B) → ℕ → ℕ → B → ℕ → ℕ → B
  put_block f d c v e g = if e == d && g == c then v else f e g

  -- `b->dev == dev && b->blockno == blockno`
  abbrev pub is_block : Buf B → ℕ → ℕ → Bool
  is_block b dev blockno = b.dev == dev && b.blockno == blockno

  -- `b->refcnt == 0 && (b->flags & B_DIRTY) == 0`
  abbrev pub is_free : Buf B → Bool
  is_free b = b.refcnt == 0 && not b.dirty

  -- A buffer that is recycled.
  abbrev pub recycled : Buf B → ℕ → ℕ → Buf B
  recycled b dev blockno = record b {
    dev = dev;
    blockno = blockno;
    valid = false;
    dirty = false;
    refcnt = 1;
  }

  abbrev pub recycle : Bcache B → ℕ → ℕ → Option ℕ → Option (ℕ × Bcache B)
  recycle s dev blockno none = none
  recycle s dev blockno (some i) =
      some (i, record s { buf = put_buf s.buf i (recycled (s.buf i) dev blockno) })

  abbrev pub found : Bcache B → ℕ → ℕ → Option ℕ → Option ℕ → Option (ℕ × Bcache B)
  found s dev blockno (some i) free = some (
    i,
    record s {
      buf = put_buf s.buf i (record (s.buf i) { refcnt = ((s.buf i).refcnt + 1) % 2 ^ 32 });
    },
  )
  found s dev blockno none free = recycle s dev blockno free

  -- `bget` up to its call of `acquiresleep`, none for a panic.
  unfoldable pub bget : Bcache B → ℕ → ℕ → Option (ℕ × Bcache B)
  unfolding find_buf backwards
  bget s dev blockno =
      found s dev blockno (find_buf (λ i. is_block (s.buf i) dev blockno) s.list)
        (find_buf (λ i. is_free (s.buf i)) (backwards s.list))

  -- `acquiresleep` of the buffer's lock, none where it sleeps.
  abbrev pub acquiresleep : Bcache B → ℕ → Option (Bcache B)
  acquiresleep s i =
      if (s.buf i).locked
      then none
      else some (record s { buf = put_buf s.buf i (record (s.buf i) { locked = true }) })

  -- `iderw`: a dirty buffer is written, any other is read.
  unfoldable pub iderw : Bcache B → ℕ → Bcache B
  iderw s i =
      let b = s.buf i in
      if b.dirty
      then record s {
        buf = put_buf s.buf i (record b { valid = true; dirty = false });
        disk = put_block s.disk b.dev b.blockno b.content;
      }
      else record s {
        buf =
            put_buf s.buf i
              (record b { valid = true; dirty = false; content = s.disk b.dev b.blockno });
      }

  -- `bread` behind `bget`.
  unfoldable pub read_in : Bcache B → ℕ → Bcache B
  unfolding iderw
  read_in s i = if (s.buf i).valid then s else iderw s i

  -- `bwrite`, none for a panic.
  unfoldable pub bwrite : Bcache B → ℕ → Option (Bcache B)
  unfolding iderw
  bwrite s i =
      if not (s.buf i).locked
      then none
      else some (iderw (record s { buf = put_buf s.buf i (record (s.buf i) { dirty = true }) }) i)

  -- `brelse`, none for a panic.
  unfoldable pub brelse : Bcache B → ℕ → Option (Bcache B)
  unfolding remove
  brelse s i =
      let b = record (s.buf i) {
        locked = false;
        refcnt = ((s.buf i).refcnt + (2 ^ 32 - 1)) % 2 ^ 32;
      } in
      let moved = if b.refcnt == 0 then i ∷ remove i s.list else s.list in
      if not (s.buf i).locked
      then none
      else some (record s { buf = put_buf s.buf i b; list = moved })
