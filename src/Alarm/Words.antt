-- ===== src/Alarm/Words.antt =====
-- The words in memory and the tests on `int` that the alarm uses.
use mephi_os_labs.Prelude.{ℕ, ◌+◌, ◌*◌, ◌/◌, ◌%◌, ◌^◌, ◌≤◌, ◌<◌, ◌≡◌, ◌⊎◌, true, arith, leb}
use mephi_os_labs.Alarm.{write_word, read_word, signed_leb, signed_ltb}

byte-lem :
    (v : ℕ)
    → v < 2 ^ 32
    → v % 256 + 256 * (v / 256 % 256) + 65536 * (v / 65536 % 256) + 16777216 * (v / 16777216 % 256)
      ≡ v
byte-lem v h = omega arith

write_word-0 : (m : ℕ → ℕ) (a v : ℕ) → write_word m a v a ≡ v % 256
unfolding write_word
write_word-0 m a v = ground arith

write_word-1 : (m : ℕ → ℕ) (a v : ℕ) → write_word m a v (a + 1) ≡ v / 256 % 256
unfolding write_word
write_word-1 m a v = ground arith

write_word-2 : (m : ℕ → ℕ) (a v : ℕ) → write_word m a v (a + 2) ≡ v / 65536 % 256
unfolding write_word
write_word-2 m a v = ground arith

write_word-3 : (m : ℕ → ℕ) (a v : ℕ) → write_word m a v (a + 3) ≡ v / 16777216 % 256
unfolding write_word
write_word-3 m a v = ground arith

-- A stored word is read back.
pub read_word-write_word : (m : ℕ → ℕ) (a v : ℕ) → v < 2 ^ 32 → read_word (write_word m a v) a ≡ v
unfolding read_word
read_word-write_word m a v h =
    rw
      (write_word-0 m a v, write_word-1 m a v, write_word-2 m a v, write_word-3 m a v, byte-lem v h)

-- A store leaves the other bytes as they are.
pub write_word-other : (m : ℕ → ℕ) (a v q : ℕ) → (q < a) ⊎ (a + 4 ≤ q) → write_word m a v q ≡ m q
unfolding write_word
write_word-other m a v q h = ground arith

-- On numbers that are not negative as an `int`, the tests are those on ℕ.
pub signed_leb-leb : (a b : ℕ) → a < 2 ^ 31 → b < 2 ^ 31 → signed_leb a b ≡ leb a b
unfolding signed_leb
signed_leb-leb a b ha hb = ground arith

pub signed_ltb-positive : (a : ℕ) → 0 < a → a < 2 ^ 31 → signed_ltb 0 a ≡ true
unfolding signed_ltb
signed_ltb-positive a h ha = ground arith

-- A number of 32 bits that is positive as an `int`.
pub signed_ltb-bound : (a : ℕ) → signed_ltb 0 a ≡ true → a < 2 ^ 32 → (0 < a) × (a < 2 ^ 31)
unfolding signed_ltb
signed_ltb-bound a h ha = ground arith
