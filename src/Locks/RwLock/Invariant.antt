-- ===== src/Locks/RwLock/Invariant.antt =====
-- What the two words of a reader-writer lock count, kept by every step.
use mephi_os_labs.Prelude.{
  ℕ, ◌+◌, ◌^◌, ◌≤◌, ◌<◌, ◌≡◌, refl, inl, inr, arith, ltb, Bool-cases, ltb→lt,
}
use mephi_os_labs.Locks.Threads.{
  assign, sum_over, sum_over-assign, le-sum_over, sum_over-le, sum_over-zero,
}
use mephi_os_labs.Locks.RwLock.{
  RwLock, init, Pc, idle, check, retreat, reading, drain, writing, Move, announced, check_free,
  spin_locked, spin_free, drained, System, move, Reach, begin, later,
}

-- Threads that the counter counts.
abbrev pub counted : Pc → ℕ
counted check = 1
counted retreat = 1
counted reading = 1
counted _ = 0

-- Threads that have the spin lock.
abbrev pub owns : Pc → ℕ
owns drain = 1
owns writing = 1
owns _ = 0

pub record Inv (n : ℕ) (m : RwLock) (pc : ℕ → Pc) : Type 0 where
  pub few : n < 2 ^ 64
  pub flag : m.locked ≤ 1
  pub owned : sum_over owns n pc ≡ m.locked
  pub read : sum_over counted n pc ≡ m.readers_cnt
  pub idle_beyond : (i : ℕ) → n ≤ i → pc i ≡ idle
  pub apart : (i j : ℕ) → pc i ≡ writing → pc j ≡ reading → ⊥

Inv-start : (n : ℕ) → n < 2 ^ 64 → Inv n init (λ _. idle)
Inv-start n h = record {
  few = h;
  flag = omega arith;
  owned = sum_over-zero owns n idle refl;
  read = sum_over-zero counted n idle refl;
  idle_beyond = λ i h. refl;
  apart = λ i j e f. cc;
}

counted-le : (n : ℕ) (pc : ℕ → Pc) → sum_over counted n pc ≤ n
counted-le n pc = sum_over-le counted n pc (λ p. ground arith)

module _ {n : ℕ} {m : RwLock} {pc : ℕ → Pc} (inv : Inv n m pc) (i : ℕ) (lt : i < n) where
  open inv use {few, flag, owned, read, idle_beyond, apart}

  record Facts (p p' : Pc) : Type 0 where
    here : pc i ≡ p
    owners : sum_over owns n (assign pc i p') + owns p ≡ sum_over owns n pc + owns p'
    readers : sum_over counted n (assign pc i p') + counted p ≡ sum_over counted n pc + counted p'
    own : owns p ≤ sum_over owns n pc
    count : counted p ≤ sum_over counted n pc
    room : sum_over counted n (assign pc i p') ≤ n

  facts : (p' : Pc) → Facts (pc i) p'
  facts p' = record {
    here = refl;
    owners = sum_over-assign owns n pc i p' lt;
    readers = sum_over-assign counted n pc i p' lt;
    own = le-sum_over owns n pc i lt;
    count = le-sum_over counted n pc i lt;
    room = counted-le n (assign pc i p');
  }

  Move-counts :
      {p p' : Pc} {m' : RwLock}
      → Move m p m' p'
      → Facts p p'
      → (m'.locked ≤ 1)
        × (sum_over owns n (assign pc i p') ≡ m'.locked)
        × (sum_over counted n (assign pc i p') ≡ m'.readers_cnt)
  Move-counts announced f = ground arith
  Move-counts (spin_free h) f = ground arith
  Move-counts (spin_locked h) f = ground arith
  Move-counts mv f = ground arith

  -- A thread that writes owns the spin lock, and one that reads is counted.
  pub writing-locked : (j : ℕ) → pc j ≡ writing → m.locked ≡ 1
  writing-locked j e = elim (Bool-cases (ltb j n)) [
    | inl h ↦ let q = le-sum_over owns n pc j (ltb→lt j n h) in ground arith
    | inr h ↦ let q = idle_beyond j (ground arith) in absurd (ground arith)
  ]

  pub reading-counted : (j : ℕ) → pc j ≡ reading → 1 ≤ m.readers_cnt
  reading-counted j e = elim (Bool-cases (ltb j n)) [
    | inl h ↦ let q = le-sum_over counted n pc j (ltb→lt j n h) in ground arith
    | inr h ↦ let q = idle_beyond j (ground arith) in absurd (ground arith)
  ]

  Move-apart :
      {p p' : Pc} {m' : RwLock}
      → Move m p m' p'
      → pc i ≡ p
      → (a b : ℕ) → assign pc i p' a ≡ writing
      → assign pc i p' b ≡ reading
      → ⊥
  Move-apart (check_free h) e a b ea eb = ground (arith, writing-locked a)
  Move-apart (drained h) e a b ea eb = ground (arith, reading-counted b)
  Move-apart mv e a b ea eb = ground (arith, apart a b)

  pub Move-Inv : {p' : Pc} {m' : RwLock} → Move m (pc i) m' p' → Inv n m' (assign pc i p')
  Move-Inv {p'} mv = record {
    few = few;
    flag = (Move-counts mv (facts p')).0;
    owned = (Move-counts mv (facts p')).1;
    read = (Move-counts mv (facts p')).2;
    idle_beyond = λ j h. let q = idle_beyond j h in ground arith;
    apart = Move-apart mv refl;
  }

pub Reach-Inv : {n : ℕ} {s : System} → n < 2 ^ 64 → Reach n s → Inv n s.lock s.pc
Reach-Inv {n} h begin = Inv-start n h
Reach-Inv h (later r (move i lt mv)) = Move-Inv (Reach-Inv h r) i lt mv
