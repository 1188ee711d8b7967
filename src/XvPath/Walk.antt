-- ===== src/XvPath/Walk.antt =====
-- Where the walk ends.
use mephi_os_labs.Prelude.{
  ℕ, zero, suc, ◌+◌, ◌<◌, ◌≡◌, refl, ap, sym, ◌∙◌, Bool, true, false, not, Option, none, some, List,
  [], ◌∷◌, arith, if◌then◌else◌, length,
}
use mephi_os_labs.XvPath.{skipelem, go_on, round, namex_from, starts_slash, namei}
use mephi_os_labs.XvPath.Elements.{parts, names, Skipped, skipelem-Skipped}

module _ {I : Type 0} (is_dir : I → Bool) (dirlookup : I → List ℕ → Option I) where
  abbrev pub then_at : Option I → (I → Option I) → Option I
  then_at none f = none
  then_at (some next) f = f next

  -- The inode that a list of names leads to; none where an inode on the way is no directory or has no
  -- such entry.
  unfoldable pub follow : I → List (List ℕ) → Option I
  follow ip [] = some ip
  follow ip (n ∷ ns) =
      if not (is_dir ip) then none else then_at (dirlookup ip n) (λ next. follow next ns)

  namex_from-follow :
      (fuel : ℕ) (ip : I) (path : List ℕ)
      → length path < fuel
      → namex_from is_dir dirlookup fuel ip path ≡ some (follow ip (names (parts path)))
  unfolding namex_from follow
  namex_from-follow zero ip path h = absurd (omega arith)
  namex_from-follow (suc fuel) ip path h =
      choose (skipelem path) (skipelem-Skipped path)
        (λ next rest l. namex_from-follow fuel next rest (omega arith))
    where
      lookup :
          (o : Option I) (ns : List (List ℕ)) (rest : I → Option (Option I))
          → ((next : I) → rest next ≡ some (follow next ns))
          → go_on is_dir dirlookup o rest ≡ some (then_at o (λ next. follow next ns))
      lookup none ns rest f = refl
      lookup (some next) ns rest f = f next

      choose :
          (r : Option (List ℕ × List ℕ))
          → Skipped path r
          → ((next : I) (rest : List ℕ)
              → length rest < length path
              → namex_from is_dir dirlookup fuel next rest
                ≡ some (follow next (names (parts rest))))
          → round is_dir dirlookup ip r (namex_from is_dir dirlookup fuel)
            ≡ some (follow ip (names (parts path)))
      choose none s f = ap (λ z. some (follow ip z)) (sym s)
      choose (some r) s f =
          step (is_dir ip) (λ next. f next r.1 s.1) ∙ ap (λ z. some (follow ip z)) (sym s.0)
        where
          step :
              (b : Bool)
              → ((next : I)
                  → namex_from is_dir dirlookup fuel next r.1
                    ≡ some (follow next (names (parts r.1))))
              → (if not b
                  then some none
                  else go_on is_dir dirlookup
                      (dirlookup ip r.0)
                      (λ next. namex_from is_dir dirlookup fuel next r.1))
                ≡ some (
                    if not b
                    then none
                    else then_at (dirlookup ip r.0) (λ next. follow next (names (parts r.1))))
          step true g =
              lookup (dirlookup ip r.0) (names (parts r.1))
                (λ next. namex_from is_dir dirlookup fuel next r.1) g
          step false g = refl

  -- `namei` ends on every path. It follows the parts of the path between slashes that are not empty, each
  -- cut to 14 bytes, from the root if the path starts with a slash and else from the directory of the
  -- process; and it gives 0 where an inode on the way is no directory or has no such entry.
  pub namei-follow :
      (root cwd : I) (path : List ℕ)
      → namei is_dir dirlookup root cwd path
        ≡ some (follow (if starts_slash path then root else cwd) (names (parts path)))
  unfolding namei
  namei-follow root cwd path =
      namex_from-follow (length path + 1) (if starts_slash path then root else cwd) path
        (omega arith)
