-- ===== src/Locks/SeqLock/Snapshot.antt =====
-- What a reader of the sequence lock may rely on.
use mephi_os_labs.Prelude.{
  ℕ, ◌%◌, ◌^◌, ◌≤◌, ◌<◌, ◌≡◌, refl, ap, subst, ◌≢◌, ◌↔◌, ◌⊎◌, inl, inr, true, arith, ltb, ◌==◌,
  Bool-cases, ==_iff, ltb→lt,
}
use mephi_os_labs.Locks.Threads.{sum_over, le-sum_over, sum_over-found}
use mephi_os_labs.Locks.SeqLock.{
  SeqLock, read_unlock, Pc, idle, got_both, owner, inside, System, Reach,
}
use mephi_os_labs.Locks.SeqLock.Invariant.{owns, stores, Inv, Reach-Inv, owns-stores}

in_range : {n k : ℕ} {m : SeqLock} {pc : ℕ → Pc} → Inv n k m pc → (j : ℕ) → pc j ≢ idle → j < n
in_range {n} inv j e = elim (Bool-cases (ltb j n)) [
  | inl h ↦ ltb→lt j n h
  | inr h ↦ absurd (e (inv.idle_beyond j (ground arith)))
]

odd_inside :
    {n k : ℕ} {m : SeqLock} {pc : ℕ → Pc} → Inv n k m pc → (j : ℕ) → pc j ≡ inside → m.seq % 2 ≡ 1
odd_inside {n} {m} {pc} inv j e =
    let lt = in_range inv j (λ f. cc) in
    let q : 1 ≤ sum_over stores n pc =
      subst (λ p. stores p ≤ sum_over stores n pc) e (le-sum_over stores n pc j lt) in
    let r = inv.storing in omega arith

-- A reader whose `SeqLock_ReadUnlock` succeeds has a snapshot: at that moment its two copies are
-- what the two words hold, and no thread is between `WriteLock` and `WriteUnlock`. For fewer than
-- 2^64 accesses, so that the sequence number has not come round.
pub read_unlock_snapshot :
    {n k start a b : ℕ} {s : System}
    → k < 2 ^ 64
    → Reach n k s
    → (i j : ℕ) → s.pc i ≡ got_both start a b
    → read_unlock s.lock.seq start ≡ true
    → (a ≡ s.lock.first) × (b ≡ s.lock.second) × (s.pc j ≢ inside)
read_unlock_snapshot {start} {a} {b} {s} few r i j e ok =
    let inv = Reach-Inv few r in
    let f = (rw e at (inv.fresh i)).1 in
    let same : start ≡ s.lock.seq = ground arith in
    let even : start % 2 ≡ 0 = ground arith in
    let c = f same even in (c.0, c.1, λ g. let o = odd_inside inv j g in ground arith)

stores→inside : (p : Pc) → stores p ≢ 0 → p ≡ inside
stores→inside inside h = refl
stores→inside idle h = absurd (h refl)
stores→inside _ h = absurd (h refl)

-- The sequence number is odd exactly while some thread is between `WriteLock` and `WriteUnlock`, and
-- a thread that is about to enter finds it even.
pub seq_odd_iff :
    {n k : ℕ} {s : System}
    → k < 2 ^ 64
    → Reach n k s
    → (i : ℕ)
    → ((s.lock.seq % 2 ≡ 1) ↔ ((j : ℕ) × (s.pc j ≡ inside)))
      × ((s.pc i ≢ owner) ⊎ (s.lock.seq % 2 ≡ 0))
seq_odd_iff {n} {k} {s} few r i =
    let inv : Inv n k s.lock s.pc = Reach-Inv few r in
    (
      (
        (λ o.
            let (j, lt, h) =
              sum_over-found stores n s.pc (λ z. let q = inv.storing in omega arith) in
            (j, stores→inside (s.pc j) h)),
        (λ h. odd_inside inv h.0 h.1),
      ),
      elim (Bool-cases (s.lock.seq % 2 == 0)) [
        | inl z ↦ inr ((==_iff _ _).0 z)
        | inr z ↦ inl (λ e.
            let w = owns-stores n s.pc i (in_range inv i (λ f. cc)) (ap owns e) (ap stores e) in
            let a = inv.owned in let b = inv.storing in let c = inv.flag in ground arith)
      ],
    )
