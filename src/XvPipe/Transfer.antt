-- ===== src/XvPipe/Transfer.antt =====
-- What goes into the pipe comes out of it, in order.
use mephi_os_labs.Prelude.{
  ℕ, zero, suc, ◌%◌, ◌<◌, ◌≡◌, refl, ap, sym, ◌∙◌, subst, ◌⊎◌, inl, inr, Bool, true, false, not,
  ◌||◌, List, [], ◌∷◌, ◌++◌, arith, if◌then◌else◌, Bool-cases, length,
}
use mathlib.Core.List.{append_assoc, append-nil}
use mephi_os_labs.XvPipe.{
  XvPipe, Outcome, is_full, is_drained, put, got, with_byte, pipewrite, read_from,
}
use mephi_os_labs.XvPipe.Queue.{
  count, queue, IsPipe, queue-put, queue-got, queue-drained, count-full,
}

-- Why a call of `pipewrite` ends: all bytes are in, or the pipe is full and nobody will read or the
-- process is killed, or it is full.
abbrev pub WriteEnds : Bool → Outcome → List ℕ → XvPipe → Type 0
WriteEnds killed Outcome.returned rest p = rest ≡ []
WriteEnds killed Outcome.failed rest p = (count p ≡ 512) × ((p.readopen ≡ false) ⊎ (killed ≡ true))
WriteEnds killed Outcome.asleep rest p = (count p ≡ 512) × (p.readopen ≡ true) × (killed ≡ false)

-- The bytes that the pipe took are behind those it had, and with those that are left they are the bytes
-- of the call.
pub record Wrote (killed : Bool) (cs : List ℕ) (p : XvPipe) (r : Outcome × List ℕ × XvPipe)
    : Type 0 where
  pub taken : List ℕ
  pub split : taken ++ r.1 ≡ cs
  pub queued : queue r.2 ≡ queue p ++ taken
  pub sound : IsPipe r.2
  pub ends : WriteEnds killed r.0 r.1 r.2

stop-WriteEnds :
    (killed b : Bool) (rest : List ℕ) (p : XvPipe)
    → p.readopen ≡ b
    → count p ≡ 512
    → WriteEnds killed (if not b || killed then Outcome.failed else Outcome.asleep) rest p
stop-WriteEnds killed false rest p e h = (h, inl e)
stop-WriteEnds true true rest p e h = (h, inr refl)
stop-WriteEnds false true rest p e h = (h, e, refl)

-- `pipewrite` on a sound pipe takes bytes as long as it is not full.
pub pipewrite-Wrote :
    (killed : Bool) (cs : List ℕ) (p : XvPipe)
    → IsPipe p
    → Wrote killed cs p (pipewrite killed cs p)
unfolding pipewrite
pipewrite-Wrote killed [] p i = record {
  taken = [];
  split = refl;
  queued = sym (append-nil (queue p));
  sound = i;
  ends = refl;
}
pipewrite-Wrote killed (c ∷ cs) p i = elim (Bool-cases (is_full p)) [
  | inl e ↦
      subst
        (λ b.
          Wrote killed (c ∷ cs) p (if b then (stop, c ∷ cs, p) else pipewrite killed cs (put c p)))
        (sym e)
        (record {
          taken = [];
          split = refl;
          queued = sym (append-nil (queue p));
          sound = i;
          ends = stop-WriteEnds killed p.readopen (c ∷ cs) p refl (count-full p i e);
        })
  | inr e ↦
      let next = queue-put c p i e in
      let w = pipewrite-Wrote killed cs (put c p) next.1 in
      subst
        (λ b.
          Wrote killed (c ∷ cs) p (if b then (stop, c ∷ cs, p) else pipewrite killed cs (put c p)))
        (sym e)
        (record {
          taken = c ∷ w.taken;
          split = ap (◌∷◌ c) w.split;
          queued =
              w.queued ∙ ap (λ x. x ++ w.taken) next.0 ∙ append_assoc (queue p) (c ∷ []) w.taken;
          sound = w.sound;
          ends = w.ends;
        })
]
  where
    stop : Outcome
    stop = if not p.readopen || killed then Outcome.failed else Outcome.asleep

-- The bytes that were read stood first, and there are `n` of them or none is left.
pub record Copied (n : ℕ) (p : XvPipe) (r : List ℕ × XvPipe) : Type 0 where
  pub queued : queue p ≡ r.0 ++ queue r.1
  pub sound : IsPipe r.1
  pub amount : (length r.0 ≡ n) ⊎ ((queue r.1 ≡ []) × (length r.0 < n))

next_amount :
    (n k : ℕ) (P : Type 0) → (k ≡ n) ⊎ (P × (k < n)) → (suc k ≡ suc n) ⊎ (P × (suc k < suc n))
next_amount n k P (inl e) = inl (ap suc e)
next_amount n k P (inr (x, h)) = inr (x, omega arith)

pub read_from-Copied : (n : ℕ) (p : XvPipe) → IsPipe p → Copied n p (read_from n p)
unfolding read_from
read_from-Copied zero p i = record { queued = refl; sound = i; amount = inl refl }
read_from-Copied (suc n) p i = elim (Bool-cases (is_drained p)) [
  | inl e ↦
      subst (λ b. Copied (suc n) p (if b then ([], p) else with_byte c (read_from n (got p))))
        (sym e)
        (record { queued = refl; sound = i; amount = inr (queue-drained p i e, omega arith) })
  | inr e ↦
      let next = queue-got p i e in
      let r = read_from-Copied n (got p) next.1 in
      subst (λ b. Copied (suc n) p (if b then ([], p) else with_byte c (read_from n (got p))))
        (sym e)
        (record {
          queued = next.0 ∙ ap (◌∷◌ c) r.queued;
          sound = r.sound;
          amount =
              next_amount n (length (read_from n (got p)).0) (queue (read_from n (got p)).1 ≡ [])
                r.amount;
        })
]
  where
    c : ℕ
    c = p.bytes (p.nread % 512)
