-- ===== src/XvPath.antt =====
-- signal/alarm/fs.c: the walk along a path name. A path is the list of its bytes in front of the NUL.
pub mod Elements
pub mod Walk
mod Tests
use mephi_os_labs.Prelude.{
  ℕ, zero, suc, ◌+◌, Bool, false, not, Option, none, some, List, [], ◌∷◌, ◌==◌, if◌then◌else◌,
  length, take,
}

-- `while(*path == '/') path++;`
unfoldable pub skip_slashes : List ℕ → List ℕ
skip_slashes [] = []
skip_slashes (c ∷ cs) = let rest = skip_slashes cs in if c == 47 then rest else c ∷ cs

-- The bytes up to the next slash or the NUL, and the path from there on.
unfoldable pub element : List ℕ → List ℕ
element [] = []
element (c ∷ cs) = let rest = element cs in if c == 47 then [] else c ∷ rest

unfoldable pub behind_element : List ℕ → List ℕ
behind_element [] = []
behind_element (c ∷ cs) = let rest = behind_element cs in if c == 47 then c ∷ cs else rest

-- `name`, of which `DIRSIZ` bytes count.
abbrev pub name : List ℕ → List ℕ
name s = take 14 s

abbrev pub skip_from : List ℕ → Option (List ℕ × List ℕ)
skip_from [] = none
skip_from (c ∷ cs) = some (name (element (c ∷ cs)), skip_slashes (behind_element (c ∷ cs)))

-- `skipelem`: the name and the rest of the path, none for 0.
unfoldable pub skipelem : List ℕ → Option (List ℕ × List ℕ)
unfolding skip_slashes element behind_element
skipelem path = skip_from (skip_slashes path)

abbrev pub starts_slash : List ℕ → Bool
starts_slash [] = false
starts_slash (c ∷ cs) = c == 47

-- The type of an inode and the entries of a directory are what the disk holds.
module _ {I : Type 0} (is_dir : I → Bool) (dirlookup : I → List ℕ → Option I) where
  -- `dirlookup` in a round of `namex`, and the rounds behind it.
  abbrev pub go_on : Option I → (I → Option (Option I)) → Option (Option I)
  go_on none rest = some none
  go_on (some next) rest = rest next

  abbrev pub round :
      I → Option (List ℕ × List ℕ) → (I → List ℕ → Option (Option I)) → Option (Option I)
  round ip none rest = some (some ip)
  round ip (some r) rest =
      if not (is_dir ip) then some none else go_on (dirlookup ip r.0) (λ next. rest next r.1)

  -- The loop of `namex` for the inode itself; none where the fuel is spent, some none for 0.
  unfoldable pub namex_from : ℕ → I → List ℕ → Option (Option I)
  namex_from zero ip path = none
  namex_from (suc fuel) ip path = round ip (skipelem path) (namex_from fuel)

  -- `namei`: from the root or from the directory of the process.
  unfoldable pub namei : I → I → List ℕ → Option (Option I)
  unfolding namex_from
  namei root cwd path = namex_from (length path + 1) (if starts_slash path then root else cwd) path
