-- ===== src/Locks/Atomic.antt =====
-- atomic/atomic/atomic.h, and the same functions in rwlock, seqlock and spinlock: one access to a
-- shared `int64_t`, kept as its 64-bit pattern.
use mephi_os_labs.Prelude.{
  ℕ, ◌+◌, ◌-◌, ◌%◌, ◌^◌, ◌<◌, ◌≡◌, Bool, true, false, arith, ◌==◌, if◌then◌else◌,
}

-- `AtomicAdd`
abbrev pub atomic_add : ℕ → ℕ → ℕ
atomic_add word value = (word + value) % 2 ^ 64

-- `AtomicSub`
abbrev pub atomic_sub : ℕ → ℕ → ℕ
atomic_sub word value = (word + (2 ^ 64 - value % 2 ^ 64)) % 2 ^ 64

-- `AtomicXchg`: the new word, and the old one, which is returned.
abbrev pub atomic_xchg : ℕ → ℕ → ℕ × ℕ
atomic_xchg word value = (value, word)

-- `AtomicCas`: the new word, the new `*expected`, and the result.
unfoldable pub atomic_cas : ℕ → ℕ → ℕ → ℕ × ℕ × Bool
atomic_cas word expected value =
    if word == expected then (value, expected, true) else (word, word, false)

-- `AtomicSub` undoes `AtomicAdd` on every 64-bit word, wrap-around included.
pub sub-add : (word value : ℕ) → word < 2 ^ 64 → atomic_sub (atomic_add word value) value ≡ word
sub-add word value h = omega arith
