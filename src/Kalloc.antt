-- ===== src/Kalloc.antt =====
-- signal/alarm/kalloc.c: the allocator of physical pages of xv6, a list that is linked through the free
-- pages. Addresses are numbers of 32 bits, the memory a function to the words at multiples of four. The
-- lock is not modelled, and `panic` is `none`.
pub mod Free
pub mod Range
mod Tests
use mephi_os_labs.Prelude.{
  ℕ, zero, suc, ◌+◌, ◌-◌, ◌*◌, ◌/◌, ◌%◌, ◌^◌, Bool, not, ◌&&◌, ◌||◌, Option, none, some, ltb, leb,
  ◌==◌, if◌then◌else◌,
}

-- `kmem.freelist`, 0 for NULL, and the memory.
pub record Kmem : Type 0 where
  pub freelist : ℕ
  pub memory : ℕ → ℕ

-- `V2P`
abbrev pub v2p : ℕ → ℕ
v2p a = (a + (2 ^ 32 - 2147483648)) % 2 ^ 32

-- `PGROUNDUP`
abbrev pub pgroundup : ℕ → ℕ
pgroundup sz = (sz + 4095) % 2 ^ 32 / 4096 * 4096

-- `memset(v, 1, PGSIZE)`
unfoldable pub fill_page : ℕ → (ℕ → ℕ) → ℕ → ℕ
fill_page v m q = if leb v q && ltb q (v + 4096) then 16843009 else m q

abbrev pub store : (ℕ → ℕ) → ℕ → ℕ → ℕ → ℕ
store m a v q = if q == a then v else m q

-- `(uint)v % PGSIZE || v < end || V2P(v) >= PHYSTOP`, with the address of `end`.
unfoldable pub is_bad : ℕ → ℕ → Bool
is_bad end v = not (v % 4096 == 0) || (ltb v end || leb 234881024 (v2p v))

-- `kfree`
unfoldable pub kfree : ℕ → ℕ → Kmem → Option Kmem
unfolding is_bad fill_page
kfree end v s =
    if is_bad end v
    then none
    else some (record { freelist = v; memory = store (fill_page v s.memory) v s.freelist })

-- `kalloc`: the page, or 0, and the state.
unfoldable pub kalloc : Kmem → ℕ × Kmem
kalloc s = (s.freelist, if s.freelist == 0 then s else record s { freelist = s.memory s.freelist })

-- The loop of `freerange` from `p` on, with fuel; the inner none is a panic.
unfoldable pub free_pages : ℕ → ℕ → ℕ → ℕ → Option Kmem → Option (Option Kmem)
free_pages zero end vend p s = none
free_pages (suc fuel) end vend p none = some none
free_pages (suc fuel) end vend p (some s) =
    let rest = free_pages fuel end vend ((p + 4096) % 2 ^ 32) (kfree end p s) in
    if leb ((p + 4096) % 2 ^ 32) vend then rest else some (some s)

-- `freerange`
unfoldable pub freerange : ℕ → ℕ → ℕ → ℕ → Kmem → Option (Option Kmem)
unfolding free_pages
freerange fuel end vstart vend s = free_pages fuel end vend (pgroundup vstart) (some s)
