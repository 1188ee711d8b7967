-- ===== src/XvFile/Counts.antt =====
-- What the counts of references count.
use mephi_os_labs.Prelude.{
  ℕ, zero, suc, ◌+◌, ◌≡◌, refl, ap, sym, ◌∙◌, subst, ◌≢◌, ◌⊎◌, Bool, true, false, Option, none,
  some, List, [], ◌∷◌, arith, ltb, ◌==◌, if◌then◌else◌, ==_refl,
}
use mathlib.Core.Option.{none-ne-some, some-injective}
use mephi_os_labs.XvFile.{
  File, nfile, put_file, find_unused, allocated_file, filealloc, filedup, Closing, still_open,
  closing,
}

-- How often a file is among the references that processes have.
unfoldable pub count : ℕ → List ℕ → ℕ
count f [] = 0
count f (g ∷ gs) = (if g == f then 1 else 0) + count f gs

-- The table counts the references.
abbrev pub IsCounted : (ℕ → File) → List ℕ → Type 0
IsCounted t held = (f : ℕ) → (t f).ref ≡ count f held

find_unused-ref : (t : ℕ → File) (n f : ℕ) {g : ℕ} → find_unused t n f ≡ some g → (t g).ref ≡ 0
unfolding find_unused
find_unused-ref t zero f {g} e = absurd (none-ne-some g e)
find_unused-ref t (suc n) f {g} e =
    choose ((t f).ref == 0) refl e (λ h. find_unused-ref t n (f + 1) h)
  where
    unused : ((t f).ref == 0) ≡ true → (t f).ref ≡ 0
    unused h = ground arith

    choose :
        (b : Bool)
        → ((t f).ref == 0) ≡ b
        → (if b then some f else find_unused t n (f + 1)) ≡ some g
        → (find_unused t n (f + 1) ≡ some g → (t g).ref ≡ 0)
        → (t g).ref ≡ 0
    choose true h e r = subst (λ z. (t z).ref ≡ 0) (some-injective f g e) (unused h)
    choose false h e r = r e

put_ref :
    (t : ℕ → File) (held held' : List ℕ) (f : ℕ) (x : File)
    → IsCounted t held
    → x.ref ≡ count f held'
    → ((g : ℕ) → g ≢ f → count g held' ≡ count g held)
    → IsCounted (put_file t f x) held'
put_ref t held held' f x c here there g = choose (g == f) refl
  where
    same : (g == f) ≡ true → g ≡ f
    same e = ground arith

    differ : (g == f) ≡ false → g ≢ f
    differ e = ground arith

    choose : (b : Bool) → (g == f) ≡ b → (if b then x else t g).ref ≡ count g held'
    choose true e = here ∙ ap (λ z. count z held') (sym (same e))
    choose false e = c g ∙ sym (there g (differ e))

count-here : (f : ℕ) (held : List ℕ) → count f (f ∷ held) ≡ count f held + 1
unfolding count
count-here f held = rw (==_refl f) (omega arith)

count-there : (f g : ℕ) (held : List ℕ) → g ≢ f → count g (f ∷ held) ≡ count g held
unfolding count
count-there f g held h = ground arith

-- `filealloc` gives NULL or a file to which no reference is left, and counts the new one.
pub filealloc-IsCounted :
    (t t' : ℕ → File) (held : List ℕ) (f : ℕ)
    → IsCounted t held
    → filealloc t ≡ some (f, t')
    → (count f held ≡ 0) × IsCounted t' (f ∷ held)
unfolding filealloc
filealloc-IsCounted t t' held f c e =
    choose (find_unused t nfile 0) (λ g h. find_unused-ref t nfile 0 h) e
  where
    choose :
        (o : Option ℕ)
        → ((g : ℕ) → o ≡ some g → (t g).ref ≡ 0)
        → allocated_file t o ≡ some (f, t')
        → (count f held ≡ 0) × IsCounted t' (f ∷ held)
    choose none h e = absurd (none-ne-some (f, t') e)
    choose (some g) h e =
        let p = some-injective (g, put_file t g (record (t g) { ref = 1 })) (f, t') e in
        let z : count g held ≡ 0 = sym (c g) ∙ h g refl in
        subst (λ q. (count q.0 held ≡ 0) × IsCounted q.1 (q.0 ∷ held)) p
          (
            z,
            put_ref t held (g ∷ held) g (record (t g) { ref = 1 }) c
                (let o = count-here g held in omega arith) (λ k ne. count-there g k held ne),
          )

-- `filedup` of a file with a reference does not panic, and counts one more.
pub filedup-IsCounted :
    (t : ℕ → File) (held : List ℕ) (f : ℕ)
    → IsCounted t held
    → count f held ≢ 0
    → (t' : ℕ → File) × (filedup t f ≡ some t') × IsCounted t' (f ∷ held)
unfolding filedup
filedup-IsCounted t held f c h = (
  put_file t f (record (t f) { ref = (t f).ref + 1 }),
  rw guard refl,
  put_ref t held (f ∷ held) f (record (t f) { ref = (t f).ref + 1 }) c
      (let o = count-here f held in let p = c f in omega arith) (λ k ne. count-there f k held ne),
)
  where
    guard : ltb (t f).ref 1 ≡ false
    guard = let p = c f in ground arith

-- What a closed reference leaves: the file closes its pipe or inode with its last reference only.
abbrev pub IsClosing : (ℕ → File) → ℕ → List ℕ → Closing → Type 0
IsClosing t f rest c =
    ((count f rest ≢ 0) × (c ≡ still_open)) ⊎ ((count f rest ≡ 0) × (c ≡ closing (t f).kind (t f)))
