-- ===== src/Locks/RwLock/Safety.antt =====
-- What the reader-writer lock promises in every state that its threads can reach.
use mephi_os_labs.Prelude.{
  ℕ, ◌^◌, ◌<◌, ◌≡◌, refl, ap, sym, ◌∙◌, fun_ext, ◌≢◌, ◌⊎◌, inl, inr, arith, ltb, ◌==◌, Bool-cases,
  ==_iff, ltb→lt,
}
use mephi_os_labs.Locks.Threads.{sum_over, le-sum_over, le-sum_over_two, sum_over-zero}
use mephi_os_labs.Locks.RwLock.{
  RwLock, init, Pc, idle, reading, drain, writing, Move, check_free, System, Step, move, Reach,
}
use mephi_os_labs.Locks.RwLock.Invariant.{counted, owns, Inv, Reach-Inv}

owns_below : {n : ℕ} {m : RwLock} {pc : ℕ → Pc} → Inv n m pc → (j : ℕ) → pc j ≡ writing → j < n
owns_below {n} inv j e = elim (Bool-cases (ltb j n)) [
  | inl h ↦ ltb→lt j n h
  | inr h ↦ let q = inv.idle_beyond j (ground arith) in absurd (ground arith)
]

one_writer :
    {n : ℕ} {m : RwLock} {pc : ℕ → Pc}
    → Inv n m pc
    → (i j : ℕ) → i < j
    → pc i ≡ writing
    → pc j ≡ writing
    → ⊥
one_writer {n} {pc} inv i j h ei ej =
    let two = le-sum_over_two owns n pc i j h (owns_below inv j ej) in
    let a = inv.owned in let b = inv.flag in ground arith

-- While a thread writes, no thread reads and no other thread writes. With fewer than 2^64 threads.
pub writers_alone :
    {n : ℕ} {s : System}
    → n < 2 ^ 64
    → Reach n s
    → (i j : ℕ) → s.pc i ≡ writing
    → (s.pc j ≢ reading) × ((i ≡ j) ⊎ (s.pc j ≢ writing))
writers_alone {n} {s} few r i j e =
    let inv : Inv n s.lock s.pc = Reach-Inv few r in
    (
      (λ f. inv.apart i j e f),
      elim (Bool-cases (i == j)) [
        | inl h ↦ inl ((==_iff i j).0 h)
        | inr h ↦ inr (λ f. elim (Bool-cases (ltb i j)) [
          | inl k ↦ one_writer inv i j (ltb→lt i j k) e f
          | inr k ↦ one_writer inv j i (ground arith) f e
        ])
      ],
    )

owner-locked :
    {n : ℕ} {m : RwLock} {pc : ℕ → Pc}
    → Inv n m pc
    → (i : ℕ) → i < n
    → owns (pc i) ≡ 1
    → m.locked ≡ 1
owner-locked {n} {pc} inv i h e =
    let q = le-sum_over owns n pc i h in let a = inv.owned in let b = inv.flag in ground arith

drain_below : {n : ℕ} {m : RwLock} {pc : ℕ → Pc} → Inv n m pc → (j : ℕ) → pc j ≡ drain → j < n
drain_below {n} inv j e = elim (Bool-cases (ltb j n)) [
  | inl h ↦ ltb→lt j n h
  | inr h ↦ let q = inv.idle_beyond j (ground arith) in absurd (ground arith)
]

Move-no_entry :
    {m m' : RwLock} {p p' : Pc} → Move m p m' p' → m.locked ≡ 1 → p' ≡ reading → p ≡ reading
Move-no_entry (check_free h) l e = absurd (ground arith)
Move-no_entry mv l e = cc

-- From the moment that a writer has the spin lock, while it waits for the readers to drain, no step
-- lets a new reader in.
pub no_new_readers :
    {n : ℕ} {s t : System}
    → n < 2 ^ 64
    → Reach n s
    → Step n s t
    → (i j : ℕ) → s.pc i ≡ drain
    → t.pc j ≡ reading
    → s.pc j ≡ reading
no_new_readers {s} few r (move k {p} lt mv) i j e f =
    let inv = Reach-Inv few r in
    let l = owner-locked inv i (drain_below inv i e) (ap owns e) in
    elim (Bool-cases (k == j)) [ inl q ↦ ground (arith, Move-no_entry mv l) | inr q ↦ ground arith ]

-- When all threads are outside, the lock is as `RwLock_Init` left it: nothing is left counted or
-- locked.
pub quiet-init :
    {n : ℕ} {s : System} → n < 2 ^ 64 → Reach n s → ((i : ℕ) → s.pc i ≡ idle) → s.lock ≡ init
quiet-init {n} {s} few r quiet =
    let inv = Reach-Inv few r in
    let all : s.pc ≡ (λ _. idle) = fun_ext quiet in
    let a : s.lock.locked ≡ 0 =
      sym inv.owned ∙ ap (sum_over owns n) all ∙ sum_over-zero owns n idle refl in
    let b : s.lock.readers_cnt ≡ 0 =
      sym inv.read ∙ ap (sum_over counted n) all ∙ sum_over-zero counted n idle refl in
    λ i. record { locked = a i; readers_cnt = b i }
