-- ===== src/XvPath/Elements.antt =====
-- The walk follows the elements of the path.
use mephi_os_labs.Prelude.{
  ℕ, suc, ◌≤◌, ◌<◌, ◌≡◌, refl, ap, sym, ◌∙◌, subst, Bool, true, false, Option, none, some, List, [],
  ◌∷◌, arith, ◌==◌, if◌then◌else◌, length,
}
use mephi_os_labs.XvPath.{skip_slashes, element, behind_element, name, skip_from, skipelem}

-- Put a byte in front of the first part.
abbrev pub extend : ℕ → List (List ℕ) → List (List ℕ)
extend c [] = (c ∷ []) ∷ []
extend c (p ∷ ps) = (c ∷ p) ∷ ps

-- The parts between the slashes.
unfoldable pub parts : List ℕ → List (List ℕ)
parts [] = [] ∷ []
parts (c ∷ cs) = let rest = parts cs in if c == 47 then [] ∷ rest else extend c rest

-- Those of them that are not empty, cut to the length of a name.
unfoldable pub names : List (List ℕ) → List (List ℕ)
names [] = []
names ([] ∷ ps) = names ps
names ((c ∷ cs) ∷ ps) = name (c ∷ cs) ∷ names ps

names-skip_slashes : (path : List ℕ) → names (parts (skip_slashes path)) ≡ names (parts path)
unfolding names parts skip_slashes
names-skip_slashes [] = refl
names-skip_slashes (c ∷ cs) = choose (c == 47) refl (names-skip_slashes cs)
  where
    choose :
        (b : Bool)
        → (c == 47) ≡ b
        → names (parts (skip_slashes cs)) ≡ names (parts cs)
        → names (parts (if b then skip_slashes cs else c ∷ cs)) ≡ names (parts (c ∷ cs))
    choose true e r = rw e r
    choose false e r = refl

-- The parts are the first element and those behind it.
parts-element :
    (path : List ℕ)
    → (rest : List (List ℕ)) × (parts path ≡ element path ∷ rest)
      × (names (parts (behind_element path)) ≡ names rest)
unfolding parts element behind_element names
parts-element [] = ([], refl, refl)
parts-element (c ∷ cs) = choose (c == 47) refl (parts-element cs)
  where
    choose :
        (b : Bool)
        → (c == 47) ≡ b
        → (rest : List (List ℕ)) × (parts cs ≡ element cs ∷ rest)
          × (names (parts (behind_element cs)) ≡ names rest)
        → (rest : List (List ℕ)) × ((if b then [] ∷ parts cs else extend c (parts cs))
            ≡ (if b then [] else c ∷ element cs) ∷ rest)
          × (names (parts (if b then c ∷ cs else behind_element cs)) ≡ names rest)
    choose true e r = (parts cs, refl, rw e refl)
    choose false e r = (r.0, ap (extend c) r.1, r.2)

head_no_slash :
    (path : List ℕ) (c : ℕ) (cs : List ℕ) → skip_slashes path ≡ c ∷ cs → (c == 47) ≡ false
unfolding skip_slashes
head_no_slash [] c cs h = cc
head_no_slash (d ∷ ds) c cs h = choose (d == 47) refl h (head_no_slash ds c cs)
  where
    head : List ℕ → ℕ
    head [] = 0
    head (x ∷ xs) = x

    choose :
        (b : Bool)
        → (d == 47) ≡ b
        → (if b then skip_slashes ds else d ∷ ds) ≡ c ∷ cs
        → (skip_slashes ds ≡ c ∷ cs → (c == 47) ≡ false)
        → (c == 47) ≡ false
    choose true e h r = r h
    choose false e h r = subst (λ z. (z == 47) ≡ false) (ap head h) e

length-skip_slashes : (path : List ℕ) → length (skip_slashes path) ≤ length path
unfolding skip_slashes
length-skip_slashes [] = omega arith
length-skip_slashes (c ∷ cs) = choose (c == 47) (length-skip_slashes cs)
  where
    choose :
        (b : Bool)
        → length (skip_slashes cs) ≤ length cs
        → length (if b then skip_slashes cs else c ∷ cs) ≤ suc (length cs)
    choose true r = omega arith
    choose false r = omega arith

length-behind_element : (path : List ℕ) → length (behind_element path) ≤ length path
unfolding behind_element
length-behind_element [] = omega arith
length-behind_element (c ∷ cs) = choose (c == 47) (length-behind_element cs)
  where
    choose :
        (b : Bool)
        → length (behind_element cs) ≤ length cs
        → length (if b then c ∷ cs else behind_element cs) ≤ suc (length cs)
    choose true r = omega arith
    choose false r = omega arith

-- What `skipelem` gives, in terms of the names along the path.
abbrev pub Skipped : List ℕ → Option (List ℕ × List ℕ) → Type 0
Skipped path none = names (parts path) ≡ []
Skipped path (some r) = (names (parts path) ≡ r.0 ∷ names (parts r.1)) × (length r.1 < length path)

skip_from-Skipped :
    (c : ℕ) (cs : List ℕ) → (c == 47) ≡ false → Skipped (c ∷ cs) (skip_from (c ∷ cs))
unfolding names parts element behind_element
skip_from-Skipped c cs e = rw e (choose (parts-element cs))
  where
    shorter : length (skip_slashes (behind_element cs)) < suc (length cs)
    shorter =
        let a = length-skip_slashes (behind_element cs) in
        let b = length-behind_element cs in omega arith

    choose :
        (rest : List (List ℕ)) × (parts cs ≡ element cs ∷ rest)
          × (names (parts (behind_element cs)) ≡ names rest)
        → (names (extend c (parts cs))
            ≡ name (c ∷ element cs) ∷ names (parts (skip_slashes (behind_element cs))))
          × (length (skip_slashes (behind_element cs)) < suc (length cs))
    choose r = (
      ap (λ z. names (extend c z)) r.1
          ∙ ap (λ z. name (c ∷ element cs) ∷ z)
              (sym r.2 ∙ sym (names-skip_slashes (behind_element cs))),
      shorter,
    )

pub skipelem-Skipped : (path : List ℕ) → Skipped path (skipelem path)
unfolding skipelem names parts
skipelem-Skipped path =
    choose (skip_slashes path) (names-skip_slashes path) (length-skip_slashes path)
      (head_no_slash path)
  where
    choose :
        (q : List ℕ)
        → names (parts q) ≡ names (parts path)
        → length q ≤ length path
        → ((c : ℕ) (cs : List ℕ) → q ≡ c ∷ cs → (c == 47) ≡ false)
        → Skipped path (skip_from q)
    choose [] h l f = sym h
    choose (c ∷ cs) h l f =
        let s = skip_from-Skipped c cs (f c cs refl) in let t = s.1 in (sym h ∙ s.0, omega arith)
