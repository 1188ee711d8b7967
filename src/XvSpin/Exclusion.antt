-- ===== src/XvSpin/Exclusion.antt =====
-- At most one processor is inside of a lock.
use mephi_os_labs.Prelude.{
  ℕ, suc, ◌+◌, ◌-◌, ◌≤◌, ◌≡◌, ap, sym, ◌∙◌, subst, ◌≢◌, Bool, true, false, ◌&&◌, none, some, ◌∷◌,
  arith, ◌==◌, ==_refl,
}
use mephi_os_labs.XvSpin.{
  SpinLock, is_cpu, holding, outside, spin, record_owner, unlock, before_popcli, Processor, assign,
  take_out,
}
use mephi_os_labs.XvSpin.Owners.{assigned, count, at_lock, inside, bit, IsOwned, count-remove_self}

record_owner_self : (k : ℕ) → at_lock k (record_owner k) ≡ 1
record_owner_self k = rw (==_refl k)

pub other_bit : (c d : ℕ) → c ≢ d → bit (c == d) ≡ 0
other_bit c d h = rw (differ h)
  where
    differ : c ≢ d → (c == d) ≡ false
    differ h = ground arith

module _ (processor : ℕ → Processor) (c k : ℕ) where
  -- What a change of the processor `c` and of the lock `k` has to respect.
  pub record Respects (lk lk' : SpinLock) (p' : Processor) : Type 0 where
    owner : count k p'.held ≡ bit (is_cpu lk'.cpu c)
    others : (d : ℕ) → d ≢ c → count k (processor d).held ≡ bit (is_cpu lk'.cpu d)
    locked : inside k p' ≤ bit lk'.locked
    others_locked : (d : ℕ) → d ≢ c → inside k (processor d) ≤ bit lk'.locked
    apart : (d : ℕ) → d ≢ c → inside k p' + inside k (processor d) ≤ 1

  pub Respects-IsOwned :
      (lock lock' : ℕ → SpinLock) (p' : Processor)
      → IsOwned lock processor k
      → Respects (lock k) (lock' k) p'
      → IsOwned lock' (assign processor c p') k
  Respects-IsOwned lock lock' p' s r = record {
    owner = λ d.
        assigned (λ x. count k x.held ≡ bit (is_cpu (lock' k).cpu d)) processor c d p'
          (λ e. r.owner ∙ ap (λ z. bit (is_cpu (lock' k).cpu z)) (sym e)) (r.others d);
    locked = λ d.
        assigned (λ x. inside k x ≤ bit (lock' k).locked) processor c d p' (λ e. r.locked)
          (r.others_locked d);
    apart = λ d e ne.
        assigned (λ x. inside k x + inside k (assign processor c p' e) ≤ 1) processor c d p'
          (λ h.
            assigned (λ y. inside k p' + inside k y ≤ 1) processor c e p'
              (λ g. absurd (ne (h ∙ sym g))) (r.apart e))
          (λ h.
            assigned (λ y. inside k (processor d) + inside k y ≤ 1) processor c e p'
              (λ g. let a = r.apart d h in omega arith) (λ g. s.apart d e ne));
  }

  module _ (lock : ℕ → SpinLock) (s : IsOwned lock processor k) where
    -- A step that leaves the lock and what the processor is inside of.
    pub keep-IsOwned :
        (lock' : ℕ → SpinLock) (p' : Processor)
        → lock' k ≡ lock k
        → count k p'.held ≡ count k (processor c).held
        → inside k p' ≡ inside k (processor c)
        → IsOwned lock' (assign processor c p') k
    keep-IsOwned lock' p' e h i = Respects-IsOwned lock lock' p' s (
        subst (λ z. Respects (lock k) z p') (sym e)
          (record {
            owner = h ∙ s.owner c;
            others = λ d ne. s.owner d;
            locked = subst (λ z. z ≤ bit (lock k).locked) (sym i) (s.locked c);
            others_locked = λ d ne. s.locked d;
            apart = λ d ne.
                subst (λ z. z + inside k (processor d) ≤ 1) (sym i) (s.apart c d (λ g. ne (sym g)));
          }))

    pub take_lock-Respects :
        (processor c).pc ≡ spin k
        → (lock k).locked ≡ false
        → Respects
            (lock k)
            (record (lock k) { locked = true })
            (record (processor c) { pc = record_owner k })
    take_lock-Respects e h = record {
      owner = s.owner c;
      others = λ d ne. s.owner d;
      locked = room (none c);
      others_locked = λ d ne. below (none d);
      apart = λ d ne. pair (none c) (none d);
    }
      where
        none : (d : ℕ) → inside k (processor d) ≤ 0
        none d = subst (λ b. inside k (processor d) ≤ bit b) h (s.locked d)

        room :
            inside k (processor c) ≤ 0 → count k (processor c).held + at_lock k (record_owner k) ≤ 1
        room b = let o = record_owner_self k in omega arith

        below : {x : ℕ} → x ≤ 0 → x ≤ 1
        below l = omega arith

        pair :
            {x : ℕ}
            → inside k (processor c) ≤ 0
            → x ≤ 0
            → count k (processor c).held + at_lock k (record_owner k) + x ≤ 1
        pair b l = let o = record_owner_self k in omega arith

    pub acquired-Respects :
        (processor c).pc ≡ record_owner k
        → Respects
            (lock k)
            (record (lock k) { cpu = some c })
            (record (processor c) { pc = outside; held = k ∷ (processor c).held })
    unfolding count
    acquired-Respects e = record {
      owner = owned (alone (==_refl c));
      others = λ d ne. zero_other d ne (s.apart c d (λ g. ne (sym g)));
      locked = subst (λ z. z ≤ bit (lock k).locked) (sym same) (s.locked c);
      others_locked = λ d ne. s.locked d;
      apart = λ d ne.
          subst (λ z. z + inside k (processor d) ≤ 1) (sym same) (s.apart c d (λ g. ne (sym g)));
    }
      where
        there : at_lock k (processor c).pc ≡ 1
        there = ap (at_lock k) e ∙ record_owner_self k

        alone : (c == c) ≡ true → bit (c == c) ≡ 1
        alone e = rw e

        own : count k (k ∷ (processor c).held) ≡ suc (count k (processor c).held)
        own = let o = record_owner_self k in omega arith

        same : count k (k ∷ (processor c).held) + 0 ≡ inside k (processor c)
        same = let t = there in let o = own in omega arith

        upper : (b : Bool) → bit b ≤ 1
        upper true = omega arith
        upper false = omega arith

        owned : bit (c == c) ≡ 1 → count k (k ∷ (processor c).held) ≡ bit (c == c)
        owned b =
            let t = there in
            let o = own in let l = s.locked c in let u = upper (lock k).locked in omega arith

        zero_other :
            (d : ℕ)
            → d ≢ c
            → inside k (processor c) + inside k (processor d) ≤ 1
            → count k (processor d).held ≡ bit (c == d)
        zero_other d ne a = let t = there in let o = other_bit c d (λ g. ne (sym g)) in omega arith

    pub release-Respects :
        (processor c).pc ≡ outside
        → holding (lock k) c ≡ true
        → Respects
            (lock k)
            (record (lock k) { cpu = none })
            (record (processor c) { pc = unlock k; held = take_out k (processor c).held })
    release-Respects e h = record {
      owner = let r = removed in omega arith;
      others = λ d ne. zero_other d (s.apart c d (λ g. ne (sym g)));
      locked = subst (λ z. z ≤ bit (lock k).locked) (sym same) (s.locked c);
      others_locked = λ d ne. s.locked d;
      apart = λ d ne.
          subst (λ z. z + inside k (processor d) ≤ 1) (sym same) (s.apart c d (λ g. ne (sym g)));
    }
      where
        and_right : (a b : Bool) → (a && b) ≡ true → b ≡ true
        and_right true b g = g
        and_right false b g = ground arith

        one : count k (processor c).held ≡ 1
        one = s.owner c ∙ ap bit (and_right (lock k).locked (is_cpu (lock k).cpu c) h)

        removed : count k (take_out k (processor c).held) ≡ 0
        removed = count-remove_self k (processor c).held ∙ ap (λ z. z - 1) one

        same :
            count k (take_out k (processor c).held) + at_lock k (unlock k) ≡ inside k (processor c)
        same =
            let r = removed in
            let o = one in let t = ap (at_lock k) e in let u = record_owner_self k in omega arith

        zero_other :
            (d : ℕ)
            → inside k (processor c) + inside k (processor d) ≤ 1
            → count k (processor d).held ≡ 0
        zero_other d a = let o = one in omega arith

    pub unlocked-Respects :
        (processor c).pc ≡ unlock k
        → Respects
            (lock k)
            (record (lock k) { locked = false })
            (record (processor c) { pc = before_popcli })
    unlocked-Respects e = record {
      owner = s.owner c;
      others = λ d ne. s.owner d;
      locked = let t = there in let l = s.locked c in let u = upper (lock k).locked in omega arith;
      others_locked = λ d ne. zero_other d (s.apart c d (λ g. ne (sym g)));
      apart = λ d ne. pair d (s.apart c d (λ g. ne (sym g)));
    }
      where
        there : at_lock k (processor c).pc ≡ 1
        there = ap (at_lock k) e ∙ record_owner_self k

        upper : (b : Bool) → bit b ≤ 1
        upper true = omega arith
        upper false = omega arith

        zero_other :
            (d : ℕ)
            → inside k (processor c) + inside k (processor d) ≤ 1
            → inside k (processor d) ≤ 0
        zero_other d a = let t = there in omega arith

        pair :
            (d : ℕ)
            → inside k (processor c) + inside k (processor d) ≤ 1
            → count k (processor c).held + 0 + inside k (processor d) ≤ 1
        pair d a = omega arith
