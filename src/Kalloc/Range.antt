-- ===== src/Kalloc/Range.antt =====
-- `freerange` frees the whole pages of a range.
use mephi_os_labs.Prelude.{ℕ, zero, suc, ◌+◌, ◌*◌, ◌%◌, ◌≤◌, ◌<◌, ◌≡◌, ◌⊎◌, List, ◌∷◌, All}

-- The list with `n` pages from `p` on in front, the last one first.
unfoldable pub onto : ℕ → ℕ → List ℕ → List ℕ
onto zero p ps = ps
onto (suc n) p ps = onto n (p + 4096) (p ∷ ps)

-- No page of the list lies between the addresses.
abbrev pub IsOutside : ℕ → ℕ → List ℕ → Type 0
IsOutside a b ps = All (λ q. (q < a) ⊎ (b ≤ q)) ps

-- A range of `n` whole pages and a rest, in the memory behind the kernel.
pub record IsRange (end p vend n : ℕ) : Type 0 where
  pub aligned : p % 4096 ≡ 0
  pub above : end ≤ p
  pub mapped : 2147483648 ≤ p
  pub top : vend ≤ 2382364672
  pub covers : p + 4096 * n ≤ vend
  pub rest : vend < p + 4096 * n + 4096
