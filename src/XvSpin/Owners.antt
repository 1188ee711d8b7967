-- ===== src/XvSpin/Owners.antt =====
-- What each step of a processor keeps.
use mephi_os_labs.Prelude.{
  ℕ, ◌+◌, ◌-◌, ◌≤◌, ◌≡◌, refl, ap, sym, ◌∙◌, ◌≢◌, Bool, true, false, ◌&&◌, none, some, List, [],
  ◌∷◌, arith, ◌==◌, if◌then◌else◌, guard-some, length, ==_refl,
}
use mathlib.Core.Option.{none-ne-some}
use mephi_os_labs.XvSpin.{
  assign, Cpu, SpinLock, popcli, is_cpu, holding, Pc, outside, spin, record_owner, unlock,
  before_popcli, Processor, take_out, Move, set_interrupts, push, pop, acquire, again, take_lock,
  acquired, release, unlocked, released,
}

-- How often a lock is in a list.
unfoldable pub count : ℕ → List ℕ → ℕ
count l [] = 0
count l (k ∷ ks) = (if k == l then 1 else 0) + count l ks

-- The lock is taken by a processor that has not recorded itself, or no longer.
abbrev pub at_lock : ℕ → Pc → ℕ
at_lock l outside = 0
at_lock l (spin k) = 0
at_lock l (record_owner k) = if k == l then 1 else 0
at_lock l (unlock k) = if k == l then 1 else 0
at_lock l before_popcli = 0

-- The exchange of the processor took the lock, and it has not stored 0 since.
abbrev pub inside : ℕ → Processor → ℕ
inside l p = count l p.held + at_lock l p.pc

abbrev pub nested : Pc → ℕ
nested outside = 0
nested (spin k) = 1
nested (record_owner k) = 1
nested (unlock k) = 1
nested before_popcli = 1

abbrev pub bit : Bool → ℕ
bit b = if b then 1 else 0

-- One processor: its interrupts are off inside of any nesting, and each lock that it holds or is about to
-- take or to release counts as one.
pub record IsNested (p : Processor) : Type 0 where
  pub off : p.cpu.ncli ≢ 0 → p.cpu.interrupts ≡ false
  pub depth : p.cpu.ncli ≡ p.pushed + length p.held + nested p.pc

-- One lock: `cpu` is the processor that holds it, at most one processor is inside, and only of a lock that
-- is locked.
pub record IsOwned (lock : ℕ → SpinLock) (processor : ℕ → Processor) (l : ℕ) : Type 0 where
  pub owner : (c : ℕ) → count l (processor c).held ≡ bit (is_cpu (lock l).cpu c)
  pub locked : (c : ℕ) → inside l (processor c) ≤ bit (lock l).locked
  pub apart : (c d : ℕ) → c ≢ d → inside l (processor c) + inside l (processor d) ≤ 1

pub count-remove_self : (l : ℕ) (ks : List ℕ) → count l (take_out l ks) ≡ count l ks - 1
unfolding count take_out
count-remove_self l [] = refl
count-remove_self l (k ∷ ks) = ground (arith, count-remove_self l ks)

pub count-remove_ne : (l k : ℕ) (ks : List ℕ) → k ≢ l → count k (take_out l ks) ≡ count k ks
unfolding count take_out
count-remove_ne l k [] h = refl
count-remove_ne l k (j ∷ ks) h = ground (arith, count-remove_ne l k ks h)

pub length-take_out :
    (l : ℕ) (ks : List ℕ) → count l ks ≢ 0 → length (take_out l ks) + 1 ≡ length ks
unfolding count take_out
length-take_out l [] h = absurd (h refl)
length-take_out l (k ∷ ks) h = choose (k == l) refl (length-take_out l ks)
  where
    choose :
        (b : Bool)
        → (k == l) ≡ b
        → (count l ks ≢ 0 → length (take_out l ks) + 1 ≡ length ks)
        → length (if b then ks else k ∷ take_out l ks) + 1 ≡ length (k ∷ ks)
    choose true e r = omega arith
    choose false e r = let q = r (λ z. h (ground arith)) in omega arith

-- What `popcli` does where it does not panic.
record Popped (c q : Cpu) : Type 0 where
  deep : c.ncli ≢ 0
  less : q.ncli ≡ c.ncli - 1
  off : q.ncli ≢ 0 → q.interrupts ≡ false

popcli_guards :
    (c r q : Cpu)
    → (if c.interrupts then none else if c.ncli == 0 then none else some r) ≡ some q
    → ((c.ncli == 0) ≡ false) × (r ≡ q)
popcli_guards c r q e = choose c.interrupts (c.ncli == 0) e
  where
    choose :
        (a b : Bool)
        → (if a then none else if b then none else some r) ≡ some q
        → (b ≡ false) × (r ≡ q)
    choose true b h = absurd (none-ne-some q h)
    choose false b h = guard-some b r q h

popcli-Popped : (c q : Cpu) → popcli c ≡ some q → Popped c q
popcli-Popped c q e =
    let r = record c { ncli = c.ncli - 1; interrupts = c.ncli == 1 && c.intena } in
    let n = popcli_guards c r q e in
    let same : r ≡ q = n.1 in
    record {
      deep = deep n.0;
      less = sym (ap Cpu.ncli same);
      off = λ h. sym (ap Cpu.interrupts same) ∙ off (λ z. h (sym (ap Cpu.ncli same) ∙ z));
    }
  where
    deep : (c.ncli == 0) ≡ false → c.ncli ≢ 0
    deep z = ground arith

    off : c.ncli - 1 ≢ 0 → (c.ncli == 1 && c.intena) ≡ false
    off h = ground arith

-- A step keeps the nesting; `counted` says that a lock whose owner the processor is stands in its list.
pub Move-IsNested :
    {lock : ℕ → SpinLock} {c : ℕ} {p : Processor} {lock' : ℕ → SpinLock} {p' : Processor}
    → Move lock c p lock' p'
    → ((l : ℕ) → holding (lock l) c ≡ true → count l p.held ≢ 0)
    → IsNested p
    → IsNested p'
Move-IsNested {p = p} (set_interrupts b e z) counted s = record {
  off = λ h. absurd (h z);
  depth = s.depth;
}
Move-IsNested {p = p} (push e) counted s = record {
  off = λ h. refl;
  depth = let d = s.depth in omega arith;
}
Move-IsNested {p = p} (pop {q = q} e h f) counted s =
    let o = popcli-Popped p.cpu q f in
    record { off = o.off; depth = let d = s.depth in let l = o.less in omega arith }
Move-IsNested {p = p} (acquire l e h) counted s = record {
  off = λ h. refl;
  depth = let d = s.depth in let n = ap nested e in omega arith;
}
Move-IsNested {p = p} (again l e h) counted s = s
Move-IsNested {p = p} (take_lock l e h) counted s = record {
  off = s.off;
  depth = s.depth ∙ ap (λ x. p.pushed + length p.held + x) (ap nested e);
}
Move-IsNested {p = p} (acquired l e) counted s = record {
  off = s.off;
  depth = let d = s.depth in let n = ap nested e in omega arith;
}
Move-IsNested {p = p} (release l e h) counted s = record {
  off = s.off;
  depth =
      let d = s.depth in
      let n = ap nested e in let r = length-take_out l p.held (counted l h) in omega arith;
}
Move-IsNested {p = p} (unlocked l e) counted s = record {
  off = s.off;
  depth = s.depth ∙ ap (λ x. p.pushed + length p.held + x) (ap nested e);
}
Move-IsNested {p = p} (released {q = q} e f) counted s =
    let o = popcli-Popped p.cpu q f in
    record {
      off = o.off;
      depth = let d = s.depth in let l = o.less in let n = ap nested e in omega arith;
    }

pub assigned {ℓ} :
    {A : Type ℓ} (P : A → Type 0) (f : ℕ → A) (i j : ℕ) (a : A)
    → (j ≡ i → P a)
    → (j ≢ i → P (f j))
    → P (assign f i a j)
assigned P f i j a here there = choose (j == i) refl
  where
    same : (j == i) ≡ true → j ≡ i
    same e = ground arith

    differ : (j == i) ≡ false → j ≢ i
    differ e = ground arith

    choose : (b : Bool) → (j == i) ≡ b → P (if b then a else f j)
    choose true e = here (same e)
    choose false e = there (differ e)

pub assigned_self {ℓ} : {A : Type ℓ} (f : ℕ → A) (i : ℕ) (a : A) → assign f i a i ≡ a
assigned_self f i a = rw (==_refl i)

pub assigned_ne {ℓ} : {A : Type ℓ} (f : ℕ → A) (i j : ℕ) (a : A) → j ≢ i → assign f i a j ≡ f j
assigned_ne f i j a h = rw (differ h)
  where
    differ : j ≢ i → (j == i) ≡ false
    differ h = ground arith
