-- ===== src/XvLog/Space.antt =====
-- The space that `begin_op` reserves, and what `log_write` keeps of a transaction.
use mephi_os_labs.Prelude.{
  ℕ, ◌+◌, ◌-◌, ◌*◌, ◌%◌, ◌^◌, ◌≤◌, ◌<◌, ◌≡◌, refl, ap, sym, ◌∙◌, subst, ◌≢◌, inl, inr, Bool, true,
  false, ◌||◌, some, List, [], ◌∷◌, ◌++◌, arith, ltb, leb, ◌==◌, if◌then◌else◌, Bool-cases,
  guard-some, or-false, ltb→false, length, length-append, ==_iff,
}
use mephi_os_labs.XvLog.{
  Layout, Machine, Log, logsize, maxopblocks, initlog, begin_op, last_op, end_op, end_commit,
  absorb, log_write,
}

pub length-absorb : (xs : List ℕ) (b : ℕ) → length (absorb xs b) ≤ length xs + 1
unfolding absorb
length-absorb [] b = omega arith
length-absorb (x ∷ xs) b = elim (Bool-cases (x == b)) [
  | inl e ↦ rw e (omega arith)
  | inr e ↦ rw e (let h = length-absorb xs b in omega arith)
]

-- The blocks that the operations between `begin_op` and `end_op` may still write, from those that each
-- has written.
abbrev pub reserve : List ℕ → ℕ
reserve [] = 0
reserve (u ∷ us) = (maxopblocks - u) + reserve us

reserve-append : (us vs : List ℕ) → reserve (us ++ vs) ≡ reserve us + reserve vs
reserve-append [] vs = omega arith
reserve-append (u ∷ us) vs = omega (arith, reserve-append us vs)

-- The log while operations begin, write blocks and end, in any order; each has written the number of
-- blocks that the list has for it. The last one that ends commits.
pub data Ops {B : Type 0} (layout : Layout B) (start size : ℕ) : Log → List ℕ → Type 0 where
  init : Ops layout start size (initlog start size) []
  begins :
      {l l' : Log} {us : List ℕ}
      → begin_op l ≡ some l'
      → Ops layout start size l us
      → Ops layout start size l' (0 ∷ us)
  writes :
      {l l' : Log} (us vs : List ℕ) (u b : ℕ)
      → u < maxopblocks
      → log_write b l ≡ some l'
      → Ops layout start size l (us ++ u ∷ vs)
      → Ops layout start size l' (us ++ (u + 1) ∷ vs)
  ends :
      {l l' : Log} (us vs : List ℕ) (u : ℕ) {last : Bool}
      → end_op l ≡ some (last, l')
      → Ops layout start size l (us ++ u ∷ vs)
      → Ops layout start size l' (us ++ vs)
  commits :
      {l : Log} {us : List ℕ} (m : Machine B)
      → l.committing ≡ true
      → Ops layout start size l us
      → Ops layout start size (end_commit layout l m).0 us

-- The blocks in the header and those that may still come fit, and a commit has the log for itself.
pub record IsReserved (size : ℕ) (l : Log) (us : List ℕ) : Type 0 where
  pub counted : l.outstanding ≡ length us
  pub few : l.outstanding ≤ 3
  pub reserved : length l.lh + reserve us ≤ logsize
  pub alone : l.committing ≡ true → us ≡ []
  pub sized : l.size ≡ size

-- What the results of the operations say.
begin_op-some :
    (l l' : Log)
    → begin_op l ≡ some l'
    → (record l { outstanding = l.outstanding + 1 } ≡ l')
      × (l.committing ≡ false)
      × (length l.lh + (l.outstanding + 1) * maxopblocks ≤ logsize)
unfolding begin_op
begin_op-some l l' h =
    let n = length l.lh + (l.outstanding + 1) * maxopblocks in
    let g =
      guard-some (l.committing || ltb logsize n) (record l { outstanding = l.outstanding + 1 }) l'
        h in
    let t = or-false l.committing (ltb logsize n) g.0 in (g.1, t.0, ltb→false logsize n t.1)

log_write-some :
    (b : ℕ) (l l' : Log) → log_write b l ≡ some l' → record l { lh = absorb l.lh b } ≡ l'
unfolding log_write
log_write-some b l l' h =
    (guard-some
      (leb logsize (length l.lh) || (leb (l.size - 1) (length l.lh) || ltb l.outstanding 1))
      (record l { lh = absorb l.lh b }) l' h).1

-- The log with one operation less.
abbrev ended : Log → Log
ended l = record l { outstanding = (l.outstanding + (2 ^ 32 - 1)) % 2 ^ 32 }

end_op-some :
    (l l' : Log) (last : Bool)
    → end_op l ≡ some (last, l')
    → (l.committing ≡ false) × (last_op (ended l) ≡ (last, l'))
unfolding end_op
end_op-some l l' last h = guard-some l.committing (last_op (ended l)) (last, l') h

begins-IsReserved :
    (size : ℕ) (l l' : Log) (us : List ℕ)
    → begin_op l ≡ some l'
    → IsReserved size l us
    → IsReserved size l' (0 ∷ us)
begins-IsReserved size l l' us h i =
    let s = begin_op-some l l' h in
    let g = s.2 in
    let all = reserve_le us in
    subst (λ x. IsReserved size x (0 ∷ us)) s.0
      (record {
        counted = omega (arith, i.counted);
        few = omega arith;
        reserved = omega (arith, i.counted);
        alone = λ c. absurd (no_flag (sym s.1 ∙ c));
        sized = i.sized;
      })
  where
    reserve_le : (us : List ℕ) → reserve us ≤ length us * maxopblocks
    reserve_le [] = omega arith
    reserve_le (u ∷ us) = let h = reserve_le us in omega arith

    no_flag : false ≢ true
    no_flag h = ground arith

writes-IsReserved :
    (size : ℕ) (l l' : Log) (us vs : List ℕ) (u b : ℕ)
    → u < maxopblocks
    → log_write b l ≡ some l'
    → IsReserved size l (us ++ u ∷ vs)
    → IsReserved size l' (us ++ (u + 1) ∷ vs)
writes-IsReserved size l l' us vs u b hu h i =
    let la = length-absorb l.lh b in
    subst (λ x. IsReserved size x (us ++ (u + 1) ∷ vs)) (log_write-some b l l' h)
      (record {
        counted =
            omega (arith, i.counted, length-append us (u ∷ vs), length-append us ((u + 1) ∷ vs));
        few = i.few;
        reserved =
            let r = i.reserved in
            omega (arith, reserve-append us (u ∷ vs), reserve-append us ((u + 1) ∷ vs));
        alone = λ c. absurd (not_empty us u vs (i.alone c));
        sized = i.sized;
      })
  where
    not_empty : (us : List ℕ) (u : ℕ) (vs : List ℕ) → us ++ u ∷ vs ≢ []
    not_empty us u vs e = let n = ap length e in omega (arith, length-append us (u ∷ vs))

last_op-IsReserved :
    (size : ℕ) (l : Log) (us : List ℕ)
    → l.committing ≡ false
    → IsReserved size l us
    → IsReserved size (last_op l).1 us
last_op-IsReserved size l us hc i =
    choose (l.outstanding == 0) (λ e. none_left us (sym i.counted ∙ (==_iff l.outstanding 0).0 e))
  where
    choice : Bool → Bool × Log
    choice b = if b then (true, record l { committing = true }) else (false, l)

    choose : (b : Bool) → (b ≡ true → us ≡ []) → IsReserved size (choice b).1 us
    choose true h = record {
      counted = i.counted;
      few = i.few;
      reserved = i.reserved;
      alone = λ _. h refl;
      sized = i.sized;
    }
    choose false h = i

    none_left : (us : List ℕ) → length us ≡ 0 → us ≡ []
    none_left [] e = refl
    none_left (u ∷ us) e = absurd (omega arith)

ends-IsReserved :
    (size : ℕ) (l l' : Log) (us vs : List ℕ) (u : ℕ) (last : Bool)
    → end_op l ≡ some (last, l')
    → IsReserved size l (us ++ u ∷ vs)
    → IsReserved size l' (us ++ vs)
ends-IsReserved size l l' us vs u last h i =
    let s = end_op-some l l' last h in
    let few = i.few in
    subst (λ x. IsReserved size x (us ++ vs)) (ap (λ r. r.1) s.1)
      (last_op-IsReserved size (ended l) (us ++ vs) s.0 (record {
        counted = omega (arith, i.counted, length-append us (u ∷ vs), length-append us vs);
        few = omega (arith, i.counted, length-append us (u ∷ vs));
        reserved =
            let r = i.reserved in omega (arith, reserve-append us (u ∷ vs), reserve-append us vs);
        alone = λ c. absurd (no_flag (sym s.0 ∙ c));
        sized = i.sized;
      }))
  where
    no_flag : false ≢ true
    no_flag h = ground arith

-- Whatever operations begin, write and end, in any order: the blocks in the header together with those
-- that the running operations may still write fit into LOGSIZE, no operation runs during a commit, and
-- the operations are counted right.
pub Ops-IsReserved :
    {B : Type 0} {layout : Layout B} {start size : ℕ} {l : Log} {us : List ℕ}
    → Ops layout start size l us
    → IsReserved size l us
unfolding end_commit
Ops-IsReserved init = record {
  counted = refl;
  few = omega arith;
  reserved = omega arith;
  alone = λ _. refl;
  sized = refl;
}
Ops-IsReserved {size = size} (begins {l = l} {l' = l'} {us = us} h o) =
    begins-IsReserved size l l' us h (Ops-IsReserved o)
Ops-IsReserved {size = size} (writes {l = l} {l' = l'} us vs u b hu h o) =
    writes-IsReserved size l l' us vs u b hu h (Ops-IsReserved o)
Ops-IsReserved {size = size} (ends {l = l} {l' = l'} us vs u {last = last} h o) =
    ends-IsReserved size l l' us vs u last h (Ops-IsReserved o)
Ops-IsReserved {size = size} (commits {l = l} {us = us} m c o) =
    let i = Ops-IsReserved o in committed size l us i
  where
    committed :
        (size : ℕ) (l : Log) (us : List ℕ)
        → IsReserved size l us
        → IsReserved size (record l { committing = false; lh = [] }) us
    committed size l us i = record {
      counted = i.counted;
      few = i.few;
      reserved = let r = i.reserved in omega arith;
      alone = λ c. absurd (no_flag c);
      sized = i.sized;
    }
      where
        no_flag : false ≢ true
        no_flag h = ground arith

-- An operation that has not used up its blocks has one left.
pub reserve_first : (us vs : List ℕ) (u : ℕ) → u < maxopblocks → 0 < reserve (us ++ u ∷ vs)
reserve_first us vs u h = omega (arith, reserve-append us (u ∷ vs))
