-- ===== src/Fibers/Ring.antt =====
-- The ring as a list: the fibers that `next` reaches from the current one, in order.
use mephi_os_labs.Prelude.{
  ℕ, zero, suc, ◌<◌, ◌≡◌, refl, ap, ◌∙◌, inl, inr, Bool, true, false, some, List, [], ◌∷◌, ◌++◌,
  arith, ◌==◌, if◌then◌else◌, Bool-cases, length, All, ==_refl,
}
use mephi_os_labs.Fibers.{update, find_tail, free_from}

-- From `a` the links go through `xs` to `b`.
abbrev pub IsPath : (ℕ → ℕ) → ℕ → List ℕ → ℕ → Type 0
IsPath next a [] b = next a ≡ b
IsPath next a (x ∷ xs) b = (next a ≡ x) × IsPath next x xs b

-- `a` is not in the list.
abbrev pub IsOther : ℕ → List ℕ → Type 0
IsOther a xs = All (λ x. (a == x) ≡ false) xs

abbrev pub Distinct : List ℕ → Type 0
Distinct [] = Unit
Distinct (x ∷ xs) = IsOther x xs × Distinct xs

abbrev pub last : ℕ → List ℕ → ℕ
last a [] = a
last a (x ∷ xs) = last x xs

-- The fibers that are not finished.
abbrev pub unfinished : (ℕ → Bool) → List ℕ → List ℕ
unfinished finished [] = []
unfinished finished (x ∷ xs) =
    if finished x then unfinished finished xs else x ∷ unfinished finished xs

pub IsPath-update :
    (next : ℕ → ℕ) (a : ℕ) (xs : List ℕ) (b p v : ℕ)
    → (p == a) ≡ false
    → IsOther p xs
    → IsPath next a xs b
    → IsPath (update next p v) a xs b
IsPath-update next a [] b p v h o e = rw h e
IsPath-update next a (x ∷ xs) b p v h o e = (rw h e.0, IsPath-update next x xs b p v o.0 o.1 e.1)

-- A change at the last fiber of a path moves the end of the path.
pub IsPath-update-last :
    (next : ℕ → ℕ) (a : ℕ) (xs : List ℕ) (b v : ℕ)
    → Distinct (a ∷ xs)
    → IsPath next a xs b
    → IsPath (update next (last a xs) v) a xs v
IsPath-update-last next a [] b v d e = rw (==_refl a)
IsPath-update-last next a (x ∷ xs) b v d e =
    (rw (last-other a x xs d.0) (e.0), IsPath-update-last next x xs b v d.1 e.1)
  where
    last-other : (p y : ℕ) (ys : List ℕ) → IsOther p (y ∷ ys) → (last y ys == p) ≡ false
    last-other p y [] o = ground arith
    last-other p y (z ∷ ys) o = last-other p z ys o.1

pub IsPath-append :
    (next : ℕ → ℕ) (a : ℕ) (xs : List ℕ) (y b : ℕ)
    → IsPath next a xs y
    → next y ≡ b
    → IsPath next a (xs ++ y ∷ []) b
IsPath-append next a [] y b e h = (e, h)
IsPath-append next a (x ∷ xs) y b e h = (e.0, IsPath-append next x xs y b e.1 h)

-- The loop of `FiberSpawn` finds the last fiber of the ring.
pub find_tail-last :
    (fuel : ℕ) (next : ℕ → ℕ) (current a : ℕ) (xs : List ℕ)
    → length xs < fuel
    → IsOther current xs
    → IsPath next a xs current
    → find_tail fuel next current a ≡ some (last a xs)
unfolding find_tail
find_tail-last zero next current a xs h o e = absurd (omega arith)
find_tail-last (suc fuel) next current a [] h o e = rw e (rw (==_refl current))
find_tail-last (suc fuel) next current a (x ∷ xs) h o e =
    let q = o.0 in
    let z : (x == current) ≡ false = ground arith in
    rw (e.0) (rw z (find_tail-last fuel next current x xs (omega arith) o.1 e.1))

-- The path when `prev` is linked past `x`.
IsPath-unlink :
    (next : ℕ → ℕ) (prev x : ℕ) (xs : List ℕ) (b : ℕ)
    → IsOther prev (x ∷ xs)
    → IsPath next x xs b
    → IsPath (update next prev (next x)) prev xs b
IsPath-unlink next prev x [] b o e = rw (==_refl prev) e
IsPath-unlink next prev x (y ∷ ys) b o e =
    (rw (==_refl prev) (e.0), IsPath-update next y ys b prev (next x) o.1.0 o.1.1 e.1)

-- One round of the loop of `FreeFinishedFibers`.
module _ (fuel : ℕ) (finished : ℕ → Bool) (current : ℕ) (next : ℕ → ℕ) (prev cur : ℕ) where
  round_end :
      (cur == current) ≡ true → free_from (suc fuel) finished current next prev cur ≡ some next
  unfolding free_from
  round_end e = rw e

  round_freed :
      (cur == current) ≡ false
      → finished cur ≡ true
      → free_from (suc fuel) finished current next prev cur
        ≡ free_from fuel finished current
            (update next prev (next cur))
            prev
            (update next prev (next cur) prev)
  unfolding free_from
  round_freed e f = rw (e, f)

  round_kept :
      (cur == current) ≡ false
      → finished cur ≡ false
      → free_from (suc fuel) finished current next prev cur
        ≡ free_from fuel finished current next cur (next cur)
  unfolding free_from
  round_kept e f = rw (e, f)

-- The loop of `FreeFinishedFibers` leaves a path through the fibers that are not finished.
pub free_from-unfinished :
    (fuel : ℕ) (finished : ℕ → Bool) (current prev : ℕ) (next : ℕ → ℕ) (xs : List ℕ)
    → length xs < fuel
    → Distinct (prev ∷ xs)
    → IsOther current xs
    → IsPath next prev xs current
    → (next' : ℕ → ℕ) × (free_from fuel finished current next prev (next prev) ≡ some next')
      × IsPath next' prev (unfinished finished xs) current
      × ((p : ℕ) → IsOther p (prev ∷ xs) → next' p ≡ next p)
free_from-unfinished zero finished current prev next xs h d o e = absurd (omega arith)
free_from-unfinished (suc fuel) finished current prev next [] h d o e = (
  next,
  rw e (round_end fuel finished current next prev current (==_refl current)),
  e,
  λ p q. refl,
)
free_from-unfinished (suc fuel) finished current prev next (x ∷ xs) h d o e =
    let differs : (x == current) ≡ false = let q = o.0 in ground arith in
    elim (Bool-cases (finished x)) [
      | inl f ↦
          let path = IsPath-unlink next prev x xs current d.0 e.1 in
          let (next', run, path', same) =
            free_from-unfinished fuel finished current prev (update next prev (next x)) xs
              (omega arith) (d.0.1, d.1.1) o.1 path in
          (
            next',
            at_x (e.0) ∙ round_freed fuel finished current next prev x differs f ∙ run,
            rw f path',
            λ p q. same p (q.0, q.1.1) ∙ skip p q.0,
          )
      | inr f ↦
          let (next', run, path', same) =
            free_from-unfinished fuel finished current x next xs (omega arith) d.1 o.1 e.1 in
          (
            next',
            at_x (e.0) ∙ round_kept fuel finished current next prev x differs f ∙ run,
            rw f (same prev d.0 ∙ e.0, path'),
            λ p q. same p q.1,
          )
    ]
  where
    at_x :
        next prev ≡ x
        → free_from (suc fuel) finished current next prev (next prev)
          ≡ free_from (suc fuel) finished current next prev x
    at_x z = ap (free_from (suc fuel) finished current next prev) z

    skip : (p : ℕ) → (p == prev) ≡ false → update next prev (next x) p ≡ next p
    skip p q = ground arith
