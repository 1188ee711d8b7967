-- ===== src/XvSpin/Excludes.antt =====
-- What the spin locks promise.
use mephi_os_labs.Prelude.{
  ℕ, ◌+◌, ◌-◌, ◌≤◌, ◌≡◌, refl, ap, sym, ◌∙◌, ◌≢◌, ◌↔◌, inl, inr, Bool, true, false, ◌&&◌, some,
  List, [], ◌∷◌, arith, ◌==◌, Bool-cases, length, ==_iff,
}
use mephi_os_labs.XvSpin.{Cpu, popcli, is_cpu, holding, before_popcli, System, Reach}
use mephi_os_labs.XvSpin.Owners.{count, inside, nested, bit}
use mephi_os_labs.XvSpin.Runs.{IsSound, holding-count, Reach-IsSound}

-- One processor in a lock at a time, no interrupts there, and no panic behind it.
pub record Excludes (s : System) : Type 0 where
  pub alone :
      (l c d : ℕ) → count l (s.processor c).held ≢ 0 → count l (s.processor d).held ≢ 0 → c ≡ d
  pub once : (l c : ℕ) → count l (s.processor c).held ≤ 1
  pub knows : (l c : ℕ) → (holding (s.lock l) c ≡ true) ↔ (count l (s.processor c).held ≢ 0)
  pub uninterrupted :
      (c : ℕ)
      → (s.processor c).cpu.interrupts ≡ true
      → ((s.processor c).held ≡ []) × (nested (s.processor c).pc ≡ 0)
  pub restores :
      (c : ℕ)
      → (s.processor c).pc ≡ before_popcli
      → (q : Cpu) × (popcli (s.processor c).cpu ≡ some q)

empty : (ls : List ℕ) → length ls ≡ 0 → ls ≡ []
empty [] h = refl
empty (l ∷ ls) h = absurd (omega arith)

popcli-some : (c : Cpu) → c.ncli ≢ 0 → c.interrupts ≡ false → (q : Cpu) × (popcli c ≡ some q)
popcli-some c h i = (record c { ncli = c.ncli - 1; interrupts = c.ncli == 1 && c.intena }, steps)
  where
    test : (c.ncli == 0) ≡ false
    test = ground arith

    steps : popcli c ≡ some (record c { ncli = c.ncli - 1; interrupts = c.ncli == 1 && c.intena })
    steps = rw i (rw test refl)

IsSound-Excludes : (s : System) → IsSound s → Excludes s
IsSound-Excludes s q = record {
  alone = λ l c d hc hd. alone l c d hc hd ((q.owned l).apart c d);
  once =
      λ l c. let o = (q.owned l).owner c in let u = upper (is_cpu (s.lock l).cpu c) in omega arith;
  knows = λ l c. holding-count s.lock s.processor l c (q.owned l);
  uninterrupted = λ c h.
      let z = off c h in
      let d = (q.nested c).depth in (empty (s.processor c).held (omega arith), omega arith);
  restores = λ c e.
      let d = (q.nested c).depth in
      let o = ap nested e in
      let n : (s.processor c).cpu.ncli ≢ 0 = λ z. omega arith in
      popcli-some (s.processor c).cpu n ((q.nested c).off n);
}
  where
    flag : true ≢ false
    flag e = ground arith

    upper : (b : Bool) → bit b ≤ 1
    upper true = omega arith
    upper false = omega arith

    alone :
        (l c d : ℕ)
        → count l (s.processor c).held ≢ 0
        → count l (s.processor d).held ≢ 0
        → (c ≢ d → inside l (s.processor c) + inside l (s.processor d) ≤ 1)
        → c ≡ d
    alone l c d hc hd a = elim (Bool-cases (c == d)) [
      | inl e ↦ (==_iff c d).0 e
      | inr e ↦ let x = a (λ z. flag (sym ((==_iff c d).1 z) ∙ e)) in absurd (omega arith)
    ]

    off : (c : ℕ) → (s.processor c).cpu.interrupts ≡ true → (s.processor c).cpu.ncli ≡ 0
    off c h = elim (Bool-cases ((s.processor c).cpu.ncli == 0)) [
      | inl e ↦ (==_iff (s.processor c).cpu.ncli 0).0 e
      | inr e ↦ absurd (
          flag (
            sym h
            ∙ (q.nested c).off (λ z. flag (sym ((==_iff (s.processor c).cpu.ncli 0).1 z) ∙ e))))
    ]

-- In every run in which processors take and release spin locks in any order, at most one processor holds
-- a lock, and holds it once; `holding` is true on a processor exactly when it holds the lock; a processor
-- that takes interrupts holds no lock and is not in `acquire` or `release`; and `popcli` at the end
-- of `release` does not panic.
pub Reach-Excludes : {s : System} → Reach s → Excludes s
Reach-Excludes {s = s} r = IsSound-Excludes s (Reach-IsSound r)
