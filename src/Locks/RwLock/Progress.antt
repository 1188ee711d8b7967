-- ===== src/Locks/RwLock/Progress.antt =====
-- The reader-writer lock never blocks all its threads.
use mephi_os_labs.Prelude.{
  ℕ, ◌^◌, ◌<◌, ◌≡◌, refl, sym, ◌∙◌, subst, ◌≢◌, inl, inr, arith, ◌==◌, Bool-cases, ==_iff,
}
use mephi_os_labs.Locks.Threads.{sum_over-found}
use mephi_os_labs.Locks.RwLock.{
  RwLock, Pc, idle, await, announce, check, retreat, reading, spin, drain, writing, Move,
  await_free, announced, check_free, check_locked, retreated, read_unlock, spin_free, drained,
  write_unlock, System, Reach,
}
use mephi_os_labs.Locks.RwLock.Invariant.{counted, owns, Inv, Reach-Inv}

-- A thread can make an access that takes it to another place.
pub record Advances (n : ℕ) (s : System) : Type 0 where
  pub thread : ℕ
  pub to : Pc
  pub lock : RwLock
  pub in_range : thread < n
  pub moves : Move s.lock (s.pc thread) lock to
  pub changes : to ≢ s.pc thread

advance :
    {n : ℕ} {s : System} (i : ℕ) {p p' : Pc} {m : RwLock}
    → i < n
    → s.pc i ≡ p
    → Move s.lock p m p'
    → p' ≢ p
    → Advances n s
advance {s} i {p' = q} {m} lt e mv d = record {
  thread = i;
  to = q;
  lock = m;
  in_range = lt;
  moves = subst (λ x. Move s.lock x m q) (sym e) mv;
  changes = λ f. d (f ∙ e);
}

-- A counted thread does not wait.
counted-Advances :
    {n : ℕ} {s : System} (i : ℕ) (p : Pc) → i < n → s.pc i ≡ p → counted p ≢ 0 → Advances n s
counted-Advances {s} i check lt e c = elim (Bool-cases (s.lock.locked == 0)) [
  | inl h ↦ advance i lt e (check_free (ground arith)) (λ f. cc)
  | inr h ↦ advance i lt e (check_locked (λ z. ground arith)) (λ f. cc)
]
counted-Advances i retreat lt e c = advance i lt e retreated (λ f. cc)
counted-Advances i reading lt e c = advance i lt e read_unlock (λ f. cc)
counted-Advances i idle lt e c = absurd (c refl)
counted-Advances i await lt e c = absurd (c refl)
counted-Advances i announce lt e c = absurd (c refl)
counted-Advances i spin lt e c = absurd (c refl)
counted-Advances i drain lt e c = absurd (c refl)
counted-Advances i writing lt e c = absurd (c refl)

-- With no reader counted the owner of the spin lock does not wait.
owner-Advances :
    {n : ℕ} {s : System} (i : ℕ) (p : Pc)
    → i < n
    → s.pc i ≡ p
    → owns p ≢ 0
    → s.lock.readers_cnt ≡ 0
    → Advances n s
owner-Advances i drain lt e c z = advance i lt e (drained z) (λ f. cc)
owner-Advances i writing lt e c z = advance i lt e write_unlock (λ f. cc)
owner-Advances i idle lt e c z = absurd (c refl)
owner-Advances i await lt e c z = absurd (c refl)
owner-Advances i announce lt e c z = absurd (c refl)
owner-Advances i check lt e c z = absurd (c refl)
owner-Advances i retreat lt e c z = absurd (c refl)
owner-Advances i reading lt e c z = absurd (c refl)
owner-Advances i spin lt e c z = absurd (c refl)

-- With the spin lock free and no reader counted nobody waits.
free-Advances :
    {n : ℕ} {s : System} (i : ℕ) (p : Pc)
    → i < n
    → s.pc i ≡ p
    → p ≢ idle
    → s.lock.locked ≡ 0
    → s.lock.readers_cnt ≡ 0
    → Advances n s
free-Advances i idle lt e c l z = absurd (c refl)
free-Advances i await lt e c l z = advance i lt e (await_free l) (λ f. cc)
free-Advances i announce lt e c l z = advance i lt e announced (λ f. cc)
free-Advances i check lt e c l z = advance i lt e (check_free l) (λ f. cc)
free-Advances i retreat lt e c l z = advance i lt e retreated (λ f. cc)
free-Advances i reading lt e c l z = advance i lt e read_unlock (λ f. cc)
free-Advances i spin lt e c l z = advance i lt e (spin_free l) (λ f. cc)
free-Advances i drain lt e c l z = advance i lt e (drained z) (λ f. cc)
free-Advances i writing lt e c l z = advance i lt e write_unlock (λ f. cc)

-- No deadlock: in every state that can be reached, if some thread is inside, then some thread has an
-- access at hand that takes it further, and does not just repeat a test in vain.
pub no_deadlock :
    {n : ℕ} {s : System} → n < 2 ^ 64 → Reach n s → (i : ℕ) → i < n → s.pc i ≢ idle → Advances n s
no_deadlock {n} {s} few r i lt e =
    let inv : Inv n s.lock s.pc = Reach-Inv few r in
    elim (Bool-cases (s.lock.readers_cnt == 0)) [
      | inr h ↦
          let (j, lj, c) = sum_over-found counted n s.pc (λ z. let q = inv.read in ground arith) in
          counted-Advances j (s.pc j) lj refl c
      | inl h ↦ elim (Bool-cases (s.lock.locked == 0)) [
        | inl l ↦ free-Advances i (s.pc i) lt refl e ((==_iff _ _).0 l) ((==_iff _ _).0 h)
        | inr l ↦
            let (j, lj, c) = sum_over-found owns n s.pc (λ z. let q = inv.owned in ground arith) in
            owner-Advances j (s.pc j) lj refl c ((==_iff _ _).0 h)
      ]
    ]
