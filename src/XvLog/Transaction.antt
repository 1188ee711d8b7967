-- ===== src/XvLog/Transaction.antt =====
-- The calls of `log_write` in a transaction.
use mephi_os_labs.Prelude.{
  ℕ, ◌+◌, ◌^◌, ◌<◌, ◌≡◌, sym, ◌∙◌, subst, ◌≢◌, inl, inr, true, false, ◌||◌, List, [], ◌∷◌, arith,
  ◌==◌, Bool-cases, length, All, ==_iff,
}
use mephi_os_labs.XvLog.{Layout, IsLayout, logsize, store, absorb}
use mephi_os_labs.XvLog.Disk.{store-other}
use mephi_os_labs.XvLog.Replay.{IsOutside}
use mephi_os_labs.XvLog.Pending.{contains}
use mephi_os_labs.XvLog.Commit.{IsOpen}
use mephi_os_labs.XvLog.Space.{length-absorb}

contains-absorb : (xs : List ℕ) (b : ℕ) → contains b (absorb xs b) ≡ true
unfolding contains absorb
contains-absorb [] b = ground arith
contains-absorb (x ∷ xs) b = elim (Bool-cases (x == b)) [
  | inl e ↦ rw e (ground arith)
  | inr e ↦ rw e (let h = contains-absorb xs b in ground arith)
]

contains-absorb_other :
    (xs : List ℕ) (b q : ℕ) → contains q xs ≡ true → contains q (absorb xs b) ≡ true
unfolding contains absorb
contains-absorb_other [] b q h = ground arith
contains-absorb_other (x ∷ xs) b q h = elim (Bool-cases (x == b)) [
  | inl e ↦ rw e (ground arith)
  | inr e ↦ rw e (later q x xs (absorb xs b) (contains-absorb_other xs b q) h)
]
  where
    later :
        (q x : ℕ) (xs ys : List ℕ)
        → (contains q xs ≡ true → contains q ys ≡ true)
        → ((q == x) || contains q xs) ≡ true
        → ((q == x) || contains q ys) ≡ true
    later q x xs ys f h = ground arith

All-absorb : (P : ℕ → Type 0) (xs : List ℕ) (b : ℕ) → P b → All P xs → All P (absorb xs b)
unfolding absorb
All-absorb P [] b hb h = (hb, tt)
All-absorb P (x ∷ xs) b hb h = elim (Bool-cases (x == b)) [
  | inl e ↦ rw e (hb, h.1)
  | inr e ↦ rw e (h.0, All-absorb P xs b hb h.1)
]

-- A block that is changed in the cache and given to `log_write`, when it does not panic, belongs to the
-- transaction: the cache still differs from the disk in blocks of the header at most.
pub absorb-IsOpen :
    {B : Type 0} (layout : Layout B) (law : IsLayout layout) (start size : ℕ) (bs : List ℕ)
    (d c : ℕ → B) (b : ℕ) (v : B)
    → IsOpen layout law start size bs d c
    → IsOutside start size b
    → b < 2 ^ 32
    → length bs < logsize
    → length bs + 1 < size
    → IsOpen layout law start size (absorb bs b) d (store c b v)
absorb-IsOpen layout law start size bs d c b v o out word hn hs =
    let len = length-absorb bs b in
    record {
      header = record {
        data_blocks = All-absorb (IsOutside start size) bs b out o.header.data_blocks;
        room = omega arith;
        fits = omega arith;
        words = All-absorb (λ x. x < 2 ^ 32) bs b word o.header.words;
      };
      empty = o.empty;
      pinned = λ q oq. elim (Bool-cases (q == b)) [
        | inl e ↦ inl (
            subst (λ x. contains x (absorb bs b) ≡ true) (sym ((==_iff q b).0 e))
              (contains-absorb bs b))
        | inr e ↦ elim (o.pinned q oq) [
          | inl h ↦ inl (contains-absorb_other bs b q h)
          | inr h ↦ inr (h ∙ sym (store-other c b q v (different q b e)))
        ]
      ];
    }
  where
    different : (q b : ℕ) → (q == b) ≡ false → q ≢ b
    different q b e = ground arith
