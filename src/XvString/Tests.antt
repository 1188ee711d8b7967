-- ===== src/XvString/Tests.antt =====
-- Moves and copies in a memory whose bytes are their addresses.
use mephi_os_labs.Prelude.{ℕ, ◌≡◌, refl, inr, arith, some}
use mephi_os_labs.XvString.{
  copy_up, copy_down, memmove, memcpy, stosb, stosl, memset, memcmp, strncmp, pad, strncpy,
  copy_string, safestrcpy, strlen_from, strlen,
}
use mephi_os_labs.XvString.Move.{Moved, memmove-Moved}
use mephi_os_labs.XvString.Fill.{filled, memset-filled}
use mephi_os_labs.XvString.Copy.{CopiedString, safestrcpy-CopiedString}

abbrev numbers : ℕ → ℕ
numbers q = q

memmove-Moved_example : Moved numbers 11 10 3 (memmove numbers 11 10 3)
memmove-Moved_example = memmove-Moved numbers 11 10 3

memcpy-last : memcpy numbers 11 10 3 13 ≡ 12
unfolding memmove copy_up copy_down
memcpy-last = refl

memset-filled_example : memset numbers 8 300 8 ≡ filled numbers 8 44 8
memset-filled_example = memset-filled numbers 8 300 8

memset_bytes : memset numbers 9 7 2 10 ≡ 7
unfolding memset stosb stosl
memset_bytes = refl

memcmp_less : memcmp numbers 3 4 2 ≡ 4294967295
unfolding memcmp
memcmp_less = refl

strncmp_more : strncmp numbers 4 3 2 ≡ 1
unfolding strncmp
strncmp_more = refl

safestrcpy-CopiedString_example : CopiedString numbers 20 5 4 (safestrcpy numbers 20 5 4)
safestrcpy-CopiedString_example =
    safestrcpy-CopiedString numbers 20 5 4 (omega arith) (inr (omega arith))

safestrcpy_cut : safestrcpy numbers 20 5 4 23 ≡ 0
unfolding safestrcpy copy_string
safestrcpy_cut = refl

strncpy_uncut : strncpy numbers 20 5 4 23 ≡ 8
unfolding strncpy pad
strncpy_uncut = refl

strlen_empty : strlen 1 numbers 0 ≡ some 0
unfolding strlen_from
strlen_empty = refl
