-- ===== src/XvString.antt =====
-- signal/alarm/string.c: the functions on bytes and strings of the kernel, over a memory of bytes. A range does not
-- come round the end of the address space.
pub mod Move
pub mod Fill
pub mod Copy
pub mod Compare
pub mod Pad
mod Tests
use mephi_os_labs.Prelude.{
  ℕ, zero, suc, ◌+◌, ◌-◌, ◌*◌, ◌/◌, ◌%◌, ◌^◌, not, ◌&&◌, ltb, ◌==◌, if◌then◌else◌, Option, none,
  some,
}

abbrev pub store_byte : (ℕ → ℕ) → ℕ → ℕ → ℕ → ℕ
store_byte m a v q = if q == a then v else m q

-- `while(n-- > 0) *d++ = *s++;`
unfoldable pub copy_up : (ℕ → ℕ) → ℕ → ℕ → ℕ → ℕ → ℕ
copy_up m d s zero = m
copy_up m d s (suc n) = copy_up (store_byte m d (m s)) (d + 1) (s + 1) n

-- `while(n-- > 0) *--d = *--s;` with `d` and `s` as they are at the end of the loop.
unfoldable pub copy_down : (ℕ → ℕ) → ℕ → ℕ → ℕ → ℕ → ℕ
copy_down m d s zero = m
copy_down m d s (suc n) = copy_down (store_byte m (d + n) (m (s + n))) d s n

-- `memmove`: the memory; it returns `dst`.
unfoldable pub memmove : (ℕ → ℕ) → ℕ → ℕ → ℕ → ℕ → ℕ
unfolding copy_up copy_down
memmove m dst src n =
    if ltb src dst && ltb dst (src + n) then copy_down m dst src n else copy_up m dst src n

-- `memcpy`
abbrev pub memcpy : (ℕ → ℕ) → ℕ → ℕ → ℕ → ℕ → ℕ
memcpy m dst src n = memmove m dst src n

-- `stosb` of x86.h
unfoldable pub stosb : (ℕ → ℕ) → ℕ → ℕ → ℕ → ℕ → ℕ
stosb m addr value zero = m
stosb m addr value (suc cnt) = stosb (store_byte m addr (value % 256)) (addr + 1) value cnt

-- A 32-bit word, its lowest byte first.
abbrev pub store_word : (ℕ → ℕ) → ℕ → ℕ → ℕ → ℕ
store_word m a w =
    store_byte
      (store_byte (store_byte (store_byte m a (w % 256)) (a + 1) (w / 256 % 256)) (a + 2)
        (w / 65536 % 256))
      (a + 3) (w / 16777216 % 256)

-- `stosl` of x86.h
unfoldable pub stosl : (ℕ → ℕ) → ℕ → ℕ → ℕ → ℕ → ℕ
stosl m addr word zero = m
stosl m addr word (suc cnt) = stosl (store_word m addr word) (addr + 4) word cnt

-- `(c<<24)|(c<<16)|(c<<8)|c` of a byte
abbrev pub repeated : ℕ → ℕ
repeated c = c * 16777216 + c * 65536 + c * 256 + c

-- `memset`: the memory; it returns `dst`.
unfoldable pub memset : (ℕ → ℕ) → ℕ → ℕ → ℕ → ℕ → ℕ
unfolding stosb stosl
memset m dst c n =
    if dst % 4 == 0 && n % 4 == 0 then stosl m dst (repeated (c % 256)) (n / 4) else stosb m dst c n

-- The difference of two bytes as an int of 32 bits.
abbrev pub byte_difference : ℕ → ℕ → ℕ
byte_difference a b = (a + (2 ^ 32 - b)) % 2 ^ 32

-- `memcmp`
unfoldable pub memcmp : (ℕ → ℕ) → ℕ → ℕ → ℕ → ℕ
memcmp m s1 s2 zero = 0
memcmp m s1 s2 (suc n) =
    let rest = memcmp m (s1 + 1) (s2 + 1) n in
    if m s1 == m s2 then rest else byte_difference (m s1) (m s2)

-- `strncmp`
unfoldable pub strncmp : (ℕ → ℕ) → ℕ → ℕ → ℕ → ℕ
strncmp m p q zero = 0
strncmp m p q (suc n) =
    let rest = strncmp m (p + 1) (q + 1) n in
    if not (m p == 0) && m p == m q then rest else byte_difference (m p) (m q)

-- `while(n-- > 0) *s++ = 0;`
unfoldable pub pad : (ℕ → ℕ) → ℕ → ℕ → ℕ → ℕ
pad m s zero = m
pad m s (suc n) = pad (store_byte m s 0) (s + 1) n

-- `strncpy`: the memory, for `n` that is not negative; it returns `s`.
unfoldable pub strncpy : (ℕ → ℕ) → ℕ → ℕ → ℕ → ℕ → ℕ
unfolding pad
strncpy m s t zero = m
strncpy m s t (suc n) =
    let m1 = store_byte m s (m t) in
    let rest = strncpy m1 (s + 1) (t + 1) n in if m t == 0 then pad m1 (s + 1) n else rest

-- The loop of `safestrcpy` with the final store, `n` being what `--n` gives.
unfoldable pub copy_string : (ℕ → ℕ) → ℕ → ℕ → ℕ → ℕ → ℕ
copy_string m s t zero = store_byte m s 0
copy_string m s t (suc n) =
    let m1 = store_byte m s (m t) in
    let rest = copy_string m1 (s + 1) (t + 1) n in
    if m t == 0 then store_byte m1 (s + 1) 0 else rest

-- `safestrcpy`: the memory, for `n` that is not negative; it returns `s`.
unfoldable pub safestrcpy : (ℕ → ℕ) → ℕ → ℕ → ℕ → ℕ → ℕ
unfolding copy_string
safestrcpy m s t zero = m
safestrcpy m s t (suc n) = copy_string m s t n

-- The loop of `strlen` from the index `i` on; none where the fuel is spent.
unfoldable pub strlen_from : ℕ → (ℕ → ℕ) → ℕ → ℕ → Option ℕ
strlen_from zero m s i = none
strlen_from (suc fuel) m s i =
    let rest = strlen_from fuel m s (i + 1) in if m (s + i) == 0 then some i else rest

-- `strlen`
abbrev pub strlen : ℕ → (ℕ → ℕ) → ℕ → Option ℕ
strlen fuel m s = strlen_from fuel m s 0
