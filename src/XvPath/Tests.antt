-- ===== src/XvPath/Tests.antt =====
-- The paths of the comment above `skipelem`, with letters and slashes as their codes.
use mephi_os_labs.Prelude.{
  ℕ, ◌+◌, ◌≡◌, refl, Bool, Option, none, some, List, [], ◌∷◌, ltb, ◌==◌, if◌then◌else◌, length,
}
use mephi_os_labs.XvPath.{skip_slashes, element, behind_element, skipelem, namex_from, namei}
use mephi_os_labs.XvPath.Elements.{parts, names}
use mephi_os_labs.XvPath.Walk.{follow, namei-follow}

-- "a/bb/c"
skipelem_first :
    skipelem (97 ∷ 47 ∷ 98 ∷ 98 ∷ 47 ∷ 99 ∷ []) ≡ some (97 ∷ [], 98 ∷ 98 ∷ 47 ∷ 99 ∷ [])
unfolding skipelem skip_slashes element behind_element
skipelem_first = refl

-- "///a//bb"
skipelem_slashes :
    skipelem (47 ∷ 47 ∷ 47 ∷ 97 ∷ 47 ∷ 47 ∷ 98 ∷ 98 ∷ []) ≡ some (97 ∷ [], 98 ∷ 98 ∷ [])
unfolding skipelem skip_slashes element behind_element
skipelem_slashes = refl

-- "a"
skipelem_last : skipelem (97 ∷ []) ≡ some (97 ∷ [], [])
unfolding skipelem skip_slashes element behind_element
skipelem_last = refl

-- "////"
skipelem-none : skipelem (47 ∷ 47 ∷ 47 ∷ 47 ∷ []) ≡ none
unfolding skipelem skip_slashes
skipelem-none = refl

-- Directories below 9, where the name of one letter leads on by one.
abbrev is_dir : ℕ → Bool
is_dir i = ltb i 9

abbrev dirlookup : ℕ → List ℕ → Option ℕ
dirlookup i n = if length n == 1 then some (i + 1) else none

namei_two : namei is_dir dirlookup 1 5 (47 ∷ 97 ∷ 47 ∷ 98 ∷ 47 ∷ []) ≡ some (some 3)
unfolding namei namex_from skipelem skip_slashes element behind_element
namei_two = refl

namei-follow_example :
    namei is_dir dirlookup 1 5 (97 ∷ 47 ∷ 98 ∷ [])
    ≡ some (follow is_dir dirlookup 5 (names (parts (97 ∷ 47 ∷ 98 ∷ []))))
namei-follow_example = namei-follow is_dir dirlookup 1 5 (97 ∷ 47 ∷ 98 ∷ [])
