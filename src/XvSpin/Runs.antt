-- ===== src/XvSpin/Runs.antt =====
-- Every run of processors that take and release locks.
use mephi_os_labs.Prelude.{
  ℕ, ◌≤◌, ◌≡◌, refl, ap, sym, ◌∙◌, subst, ◌≢◌, ◌↔◌, Bool, true, false, ◌&&◌, arith, ◌==◌, length,
}
use mephi_os_labs.XvSpin.{
  SpinLock, is_cpu, holding, Processor, assign, Move, set_interrupts, push, pop, acquire, again,
  take_lock, acquired, release, unlocked, released, System, IsInitial, Reach, initial, step,
}
use mephi_os_labs.XvSpin.Owners.{
  assigned, assigned_self, assigned_ne, count, at_lock, inside, nested, bit, IsNested, IsOwned,
  count-remove_ne, Move-IsNested,
}
use mephi_os_labs.XvSpin.Exclusion.{
  other_bit, Respects, Respects-IsOwned, keep-IsOwned, take_lock-Respects, acquired-Respects,
  release-Respects, unlocked-Respects,
}

-- The sound states of processors and locks.
pub record IsSound (s : System) : Type 0 where
  pub nested : (c : ℕ) → IsNested (s.processor c)
  pub owned : (l : ℕ) → IsOwned s.lock s.processor l

-- A processor that is recorded as the owner has the lock in its list.
pub holding-count :
    (lock : ℕ → SpinLock) (processor : ℕ → Processor) (l c : ℕ)
    → IsOwned lock processor l
    → (holding (lock l) c ≡ true) ↔ (count l (processor c).held ≢ 0)
holding-count lock processor l c s =
    choose (lock l).locked (is_cpu (lock l).cpu c) (s.owner c) (s.locked c)
  where
    choose :
        (a b : Bool)
        → count l (processor c).held ≡ bit b
        → inside l (processor c) ≤ bit a
        → ((a && b) ≡ true) ↔ (count l (processor c).held ≢ 0)
    choose true true h u = (λ e z. omega arith, λ e. refl)
    choose true false h u = (λ e z. ground arith, λ e. absurd (e h))
    choose false true h u = absurd (omega arith)
    choose false false h u = (λ e z. ground arith, λ e. absurd (e h))

module _ (lock : ℕ → SpinLock) (processor : ℕ → Processor) (c : ℕ)
    (s : (l : ℕ) → IsOwned lock processor l) where
  quiet-IsOwned :
      (p' : Processor)
      → p'.held ≡ (processor c).held
      → ((k : ℕ) → at_lock k p'.pc ≡ at_lock k (processor c).pc)
      → (k : ℕ) → IsOwned lock (assign processor c p') k
  quiet-IsOwned p' h a k =
      keep-IsOwned processor c k lock (s k) lock p' refl (ap (count k) h)
        (let x = ap (count k) h in let y = a k in omega arith)

  touched-IsOwned :
      (l : ℕ) (lk : SpinLock) (p' : Processor)
      → Respects processor c l (lock l) lk p'
      → ((k : ℕ) → l ≢ k → count k p'.held ≡ count k (processor c).held)
      → ((k : ℕ) → l ≢ k → at_lock k p'.pc ≡ at_lock k (processor c).pc)
      → (k : ℕ) → IsOwned (assign lock l lk) (assign processor c p') k
  touched-IsOwned l lk p' r h a k = choose (l == k) refl
    where
      same : (l == k) ≡ true → l ≡ k
      same e = ground arith

      differ : (l == k) ≡ false → l ≢ k
      differ e = ground arith

      choose : (b : Bool) → (l == k) ≡ b → IsOwned (assign lock l lk) (assign processor c p') k
      choose true e = subst (IsOwned (assign lock l lk) (assign processor c p')) (same e) (
          Respects-IsOwned processor c l lock (assign lock l lk) p' (s l)
            (subst (λ z. Respects processor c l (lock l) z p') (sym (assigned_self lock l lk)) r))
      choose false e =
          keep-IsOwned processor c k lock (s k) (assign lock l lk) p'
            (assigned_ne lock l k lk (λ z. differ e (sym z))) (h k (differ e))
            (let x = h k (differ e) in let y = a k (differ e) in omega arith)

  Move-IsOwned :
      {lock' : ℕ → SpinLock} {p' : Processor}
      → Move lock c (processor c) lock' p'
      → (k : ℕ) → IsOwned lock' (assign processor c p') k
  unfolding count
  Move-IsOwned (set_interrupts b e z) = quiet-IsOwned _ refl (λ k. refl)
  Move-IsOwned (push e) = quiet-IsOwned _ refl (λ k. refl)
  Move-IsOwned (pop e h f) = quiet-IsOwned _ refl (λ k. refl)
  Move-IsOwned (acquire l e h) = quiet-IsOwned _ refl (λ k. sym (ap (at_lock k) e))
  Move-IsOwned (again l e h) = quiet-IsOwned _ refl (λ k. refl)
  Move-IsOwned (released e f) = quiet-IsOwned _ refl (λ k. sym (ap (at_lock k) e))
  Move-IsOwned (take_lock l e h) =
      touched-IsOwned l _ _ (take_lock-Respects processor c l lock (s l) e h) (λ k ne. refl)
        (λ k ne. other_bit l k ne ∙ sym (ap (at_lock k) e))
  Move-IsOwned (acquired l e) =
      touched-IsOwned l _ _ (acquired-Respects processor c l lock (s l) e)
        (λ k ne. let o = other_bit l k ne in omega arith)
        (λ k ne. sym (ap (at_lock k) e ∙ other_bit l k ne))
  Move-IsOwned (release l e h) =
      touched-IsOwned l _ _ (release-Respects processor c l lock (s l) e h)
        (λ k ne. count-remove_ne l k (processor c).held (λ z. ne (sym z)))
        (λ k ne. other_bit l k ne ∙ sym (ap (at_lock k) e))
  Move-IsOwned (unlocked l e) =
      touched-IsOwned l _ _ (unlocked-Respects processor c l lock (s l) e) (λ k ne. refl)
        (λ k ne. sym (ap (at_lock k) e ∙ other_bit l k ne))

IsInitial-IsSound : (s : System) → IsInitial s → IsSound s
unfolding count
IsInitial-IsSound s i = record {
  nested = λ c. record {
    off = λ h. absurd (h (i.not_nested c));
    depth =
        let n = i.not_nested c in
        let p = i.none_pushed c in
        let h = ap length (i.none_held c) in let o = ap nested (i.outside c) in omega arith;
  };
  owned = λ l. record {
    owner = λ c. ap (count l) (i.none_held c) ∙ sym (ap (λ k. bit (is_cpu k.cpu c)) (i.unlocked l));
    locked = λ c. let n = none l c in omega arith;
    apart = λ c d ne. let n = none l c in let m = none l d in omega arith;
  };
}
  where
    none : (l c : ℕ) → inside l (s.processor c) ≡ 0
    none l c =
        let h = ap (count l) (i.none_held c) in let o = ap (at_lock l) (i.outside c) in omega arith

pub Reach-IsSound : {s : System} → Reach s → IsSound s
Reach-IsSound (initial {s = s} i) = IsInitial-IsSound s i
Reach-IsSound (step {s = s} {lock = lock} {p = p} c r m) =
    let q = Reach-IsSound r in
    record {
      nested = λ d.
          assigned IsNested s.processor c d p
            (λ e.
              Move-IsNested m (λ l h. (holding-count s.lock s.processor l c (q.owned l)).0 h)
                (q.nested c))
            (λ e. q.nested d);
      owned = Move-IsOwned s.lock s.processor c q.owned m;
    }
