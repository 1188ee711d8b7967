-- ===== src/Locks/SeqLock/Invariant.antt =====
-- What the sequence number tells, kept by every step.
use mephi_os_labs.Prelude.{
  ℕ, zero, suc, ◌+◌, ◌%◌, ◌^◌, ◌≤◌, ◌<◌, ◌≡◌, refl, ap, sym, ◌∙◌, inl, inr, arith, ◌==◌, Bool-cases,
  ==_iff,
}
use mephi_os_labs.Locks.Threads.{assign, sum_over, sum_over-assign, le-sum_over, sum_over-zero}
use mephi_os_labs.Locks.SeqLock.{
  SeqLock, init, Pc, idle, got_seq, got_first, got_both, owner, inside, leaving, Move, read_lock,
  read_first, read_second, read_again, read_accept, read_done, write_lock, spin_locked, spin_free,
  enter, store_first, store_second, exit, unlock, System, move, Reach, begin, later,
}

-- Threads that have the spin lock, and threads that may store.
abbrev pub owns : Pc → ℕ
owns owner = 1
owns inside = 1
owns leaving = 1
owns _ = 0

abbrev pub stores : Pc → ℕ
stores inside = 1
stores _ = 0

-- What the locals of a reader tell: if the sequence number is still the even one that it started
-- with, its copies are what the words hold.
abbrev pub IsFresh : SeqLock → Pc → Type 0
IsFresh m (got_seq s) = s ≤ m.seq
IsFresh m (got_first s a) = (s ≤ m.seq) × (s ≡ m.seq → s % 2 ≡ 0 → a ≡ m.first)
IsFresh m (got_both s a b) = (s ≤ m.seq) × (s ≡ m.seq → s % 2 ≡ 0 → (a ≡ m.first) × (b ≡ m.second))
IsFresh m _ = Unit

pub record Inv (n k : ℕ) (m : SeqLock) (pc : ℕ → Pc) : Type 0 where
  pub flag : m.locked ≤ 1
  pub owned : sum_over owns n pc ≡ m.locked
  pub storing : sum_over stores n pc ≡ m.seq % 2
  pub slow : m.seq ≤ k
  pub idle_beyond : (i : ℕ) → n ≤ i → pc i ≡ idle
  pub fresh : (i : ℕ) → IsFresh m (pc i)

Inv-start : (n k : ℕ) → Inv n k init (λ _. idle)
Inv-start n k = record {
  flag = omega arith;
  owned = sum_over-zero owns n idle refl;
  storing = sum_over-zero stores n idle refl;
  slow = omega arith;
  idle_beyond = λ i h. refl;
  fresh = λ i. tt;
}

-- The readers' facts survive a step that leaves the words alone, or that raises the sequence number,
-- or that is made while the number is odd.
IsFresh-same :
    (m m' : SeqLock) (q : Pc)
    → m'.seq ≡ m.seq
    → m'.first ≡ m.first
    → m'.second ≡ m.second
    → IsFresh m q
    → IsFresh m' q
IsFresh-same m m' (got_seq s) e f g h = ground arith
IsFresh-same m m' (got_first s a) e f g h =
    (let z = h.0 in ground arith, λ u v. h.1 (u ∙ e) v ∙ sym f)
IsFresh-same m m' (got_both s a b) e f g h =
    (let z = h.0 in ground arith, λ u v. let r = h.1 (u ∙ e) v in (r.0 ∙ sym f, r.1 ∙ sym g))
IsFresh-same m m' _ e f g h = tt

IsFresh-up : (m m' : SeqLock) (q : Pc) → m'.seq ≡ m.seq + 1 → IsFresh m q → IsFresh m' q
IsFresh-up m m' (got_seq s) e h = omega arith
IsFresh-up m m' (got_first s a) e h = let z = h.0 in (omega arith, λ u v. absurd (omega arith))
IsFresh-up m m' (got_both s a b) e h = let z = h.0 in (omega arith, λ u v. absurd (omega arith))
IsFresh-up m m' _ e h = tt

IsFresh-odd :
    (m m' : SeqLock) (q : Pc) → m'.seq ≡ m.seq → m.seq % 2 ≡ 1 → IsFresh m q → IsFresh m' q
IsFresh-odd m m' (got_seq s) e o h = omega arith
IsFresh-odd m m' (got_first s a) e o h =
    let z = h.0 in
    (omega arith, λ u v. absurd (let w = ap (λ (x : ℕ). x % 2) (u ∙ e) in omega arith))
IsFresh-odd m m' (got_both s a b) e o h =
    let z = h.0 in
    (omega arith, λ u v. absurd (let w = ap (λ (x : ℕ). x % 2) (u ∙ e) in omega arith))
IsFresh-odd m m' _ e o h = tt

pub stores-le-owns : (n : ℕ) (pc : ℕ → Pc) → sum_over stores n pc ≤ sum_over owns n pc
unfolding sum_over
stores-le-owns zero pc = omega arith
stores-le-owns (suc n) pc = ground (arith, stores-le-owns n pc)

-- A thread that owns the lock and does not store leaves the sequence number even.
pub owns-stores :
    (n : ℕ) (pc : ℕ → Pc) (i : ℕ)
    → i < n
    → owns (pc i) ≡ 1
    → stores (pc i) ≡ 0
    → suc (sum_over stores n pc) ≤ sum_over owns n pc
unfolding sum_over
owns-stores zero pc i h o s = absurd (omega arith)
owns-stores (suc n) pc i h o s = elim (Bool-cases (i == n)) [
  | inl q ↦
      let e : i ≡ n = (==_iff i n).0 q in
      let o' : owns (pc n) ≡ 1 = rw e at o in
      let s' : stores (pc n) ≡ 0 = rw e at s in omega (arith, stores-le-owns n pc)
  | inr q ↦
      let r = owns-stores n pc i (ground arith) o s in
      let one : stores (pc n) ≤ owns (pc n) = ground arith in omega arith
]

module _ {n k : ℕ} {m : SeqLock} {pc : ℕ → Pc} (inv : Inv n k m pc) (small : k + 1 < 2 ^ 64) (i : ℕ)
    (lt : i < n) where
  open inv use {flag, owned, storing, slow, idle_beyond, fresh}

  record Facts (p p' : Pc) : Type 0 where
    here : pc i ≡ p
    owners : sum_over owns n (assign pc i p') + owns p ≡ sum_over owns n pc + owns p'
    storers : sum_over stores n (assign pc i p') + stores p ≡ sum_over stores n pc + stores p'
    own : owns p ≤ sum_over owns n pc
    store : stores p ≤ sum_over stores n pc
    less : sum_over stores n pc ≤ sum_over owns n pc
    waits : owns p ≡ 1 → stores p ≡ 0 → suc (sum_over stores n pc) ≤ sum_over owns n pc

  facts : (p' : Pc) → Facts (pc i) p'
  facts p' = record {
    here = refl;
    owners = sum_over-assign owns n pc i p' lt;
    storers = sum_over-assign stores n pc i p' lt;
    own = le-sum_over owns n pc i lt;
    store = le-sum_over stores n pc i lt;
    less = stores-le-owns n pc;
    waits = owns-stores n pc i lt;
  }

  Move-counts :
      {p p' : Pc} {m' : SeqLock}
      → Move m p m' p'
      → Facts p p'
      → (m'.locked ≤ 1)
        × (sum_over owns n (assign pc i p') ≡ m'.locked)
        × (sum_over stores n (assign pc i p') ≡ m'.seq % 2)
        × (m'.seq ≤ k + 1)
  Move-counts enter f = let w = f.waits refl refl in ground arith
  Move-counts exit f = ground arith
  Move-counts (spin_free h) f = ground arith
  Move-counts (spin_locked h) f = ground arith
  Move-counts mv f = ground arith

  -- The thread that moves.
  Move-IsFresh_self : {p p' : Pc} {m' : SeqLock} → Move m p m' p' → IsFresh m p → IsFresh m' p'
  Move-IsFresh_self read_lock f = omega arith
  Move-IsFresh_self read_first f = (f, λ e z. refl)
  Move-IsFresh_self read_second f = (f.0, λ e z. (f.1 e z, refl))
  Move-IsFresh_self (read_again h) f = tt
  Move-IsFresh_self (read_accept h) f = tt
  Move-IsFresh_self read_done f = tt
  Move-IsFresh_self write_lock f = tt
  Move-IsFresh_self (spin_locked h) f = tt
  Move-IsFresh_self (spin_free h) f = tt
  Move-IsFresh_self enter f = tt
  Move-IsFresh_self store_first f = tt
  Move-IsFresh_self store_second f = tt
  Move-IsFresh_self exit f = tt
  Move-IsFresh_self unlock f = tt

  -- The others: the sequence number goes up, or it is odd, or the words stay.
  Move-IsFresh_other :
      {p p' : Pc} {m' : SeqLock}
      → Move m p m' p'
      → Facts p p'
      → (q : Pc) → IsFresh m q
      → IsFresh m' q
  Move-IsFresh_other {m'} enter f q h = IsFresh-up m m' q (ground arith) h
  Move-IsFresh_other {m'} exit f q h = IsFresh-up m m' q (ground arith) h
  Move-IsFresh_other {m'} store_first f q h = IsFresh-odd m m' q refl (ground arith) h
  Move-IsFresh_other {m'} store_second f q h = IsFresh-odd m m' q refl (ground arith) h
  Move-IsFresh_other {m'} mv f q h = IsFresh-same m m' q refl refl refl h

  pub Move-Inv : {p' : Pc} {m' : SeqLock} → Move m (pc i) m' p' → Inv n (k + 1) m' (assign pc i p')
  Move-Inv {p'} {m'} mv = record {
    flag = c.0;
    owned = c.1;
    storing = c.2;
    slow = c.3;
    idle_beyond = λ j h. let q = idle_beyond j h in ground arith;
    fresh = λ j. elim (Bool-cases (i == j)) [
      | inl q ↦ rw q (Move-IsFresh_self mv (fresh i))
      | inr q ↦ rw q (Move-IsFresh_other mv (facts p') (pc j) (fresh j))
    ];
  }
    where
      c :
          (m'.locked ≤ 1)
          × (sum_over owns n (assign pc i p') ≡ m'.locked)
          × (sum_over stores n (assign pc i p') ≡ m'.seq % 2)
          × (m'.seq ≤ k + 1)
      c = Move-counts mv (facts p')

pub Reach-Inv : {n k : ℕ} {s : System} → k < 2 ^ 64 → Reach n k s → Inv n k s.lock s.pc
Reach-Inv {n} {k} h (begin e) = Inv-start n k
Reach-Inv {n} {k} h (later {k = l} r (move i {m} {p} lt mv) e) =
    rw e (Move-Inv (Reach-Inv (omega arith) r) (omega arith) i lt mv)
