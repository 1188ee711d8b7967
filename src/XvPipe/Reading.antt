-- ===== src/XvPipe/Reading.antt =====
-- What `piperead` reads, and how it ends.
use mephi_os_labs.Prelude.{
  ℕ, ◌+◌, ◌-◌, ◌%◌, ◌^◌, ◌<◌, ◌≡◌, refl, ap, sym, ◌∙◌, subst, ◌⊎◌, inl, inr, Bool, true, false,
  ◌&&◌, List, [], ◌++◌, arith, ◌==◌, if◌then◌else◌, Bool-cases, length,
}
use mephi_os_labs.XvPipe.{XvPipe, Outcome, is_drained, read_from, copied, piperead}
use mephi_os_labs.XvPipe.Queue.{count, queue, IsPipe, length-slice, queue-drained}
use mephi_os_labs.XvPipe.Transfer.{Copied, read_from-Copied}

-- Why a call of `piperead` ends. It returns with `n` bytes or with those that there are; with none, if
-- it is asked for some, only when no writer is left. Else the pipe is empty and has a writer.
abbrev pub ReadEnds : Bool → ℕ → XvPipe → Outcome → List ℕ → XvPipe → Type 0
ReadEnds killed n p Outcome.returned bytes q =
    ((length bytes ≡ n) ⊎ ((queue q ≡ []) × (length bytes < n)))
    × (0 < n → bytes ≡ [] → p.writeopen ≡ false)
ReadEnds killed n p Outcome.failed bytes q = (queue p ≡ []) × (p.writeopen ≡ true) × (killed ≡ true)
ReadEnds killed n p Outcome.asleep bytes q =
    (queue p ≡ []) × (p.writeopen ≡ true) × (killed ≡ false)

-- The bytes that were read stood first in the pipe.
pub record Read (killed : Bool) (n : ℕ) (p : XvPipe) (r : Outcome × List ℕ × XvPipe) : Type 0 where
  pub queued : queue p ≡ r.1 ++ queue r.2
  pub sound : IsPipe r.2
  pub ends : ReadEnds killed n p r.0 r.1 r.2

wait-ReadEnds :
    (killed : Bool) (n : ℕ) (p : XvPipe)
    → queue p ≡ []
    → p.writeopen ≡ true
    → ReadEnds killed n p (if killed then Outcome.failed else Outcome.asleep) [] p
wait-ReadEnds true n p h w = (h, w, refl)
wait-ReadEnds false n p h w = (h, w, refl)

both : (a b : Bool) → (a && b) ≡ true → (a ≡ true) × (b ≡ true)
both a b h = ground arith

no_words : (r w : ℕ) → r < 2 ^ 32 → w < 2 ^ 32 → 0 ≡ (w + (2 ^ 32 - r)) % 2 ^ 32 → (r == w) ≡ true
no_words r w hr hw h = ground arith

second_false : (a b : Bool) → (a && b) ≡ false → a ≡ true → b ≡ false
second_false a b h e = ground arith

-- A pipe without bytes is drained.
drained-queue : (p : XvPipe) → IsPipe p → queue p ≡ [] → is_drained p ≡ true
drained-queue p i h =
    no_words p.nread p.nwrite i.nread i.nwrite
      (sym (ap length h) ∙ length-slice p.bytes p.nread (count p))

-- Reading at the end of the file, from the bytes that `read_from` gives.
end_of_file :
    (n : ℕ) (p : XvPipe) (r : List ℕ × XvPipe)
    → IsPipe p
    → (is_drained p && p.writeopen) ≡ false
    → Copied n p r
    → 0 < n
    → r.0 ≡ []
    → p.writeopen ≡ false
end_of_file n p r i h c hn e =
    let nothing : queue r.1 ≡ [] = elim c.amount [
      | inl a ↦ absurd (let z = ap length e in omega arith)
      | inr a ↦ a.0
    ] in
    second_false (is_drained p) p.writeopen h
      (drained-queue p i (c.queued ∙ ap (λ x. x ++ queue r.1) e ∙ nothing))

-- `piperead` on a sound pipe.
pub piperead-Read :
    (killed : Bool) (n : ℕ) (p : XvPipe) → IsPipe p → Read killed n p (piperead killed n p)
unfolding piperead
piperead-Read killed n p i = elim (Bool-cases (is_drained p && p.writeopen)) [
  | inl e ↦
      let b = both (is_drained p) p.writeopen e in
      subst (λ t. Read killed n p (if t then waits else copied (read_from n p))) (sym e)
        (record {
          queued = refl;
          sound = i;
          ends = wait-ReadEnds killed n p (queue-drained p i b.0) b.1;
        })
  | inr e ↦
      let c = read_from-Copied n p i in
      subst (λ t. Read killed n p (if t then waits else copied (read_from n p))) (sym e)
        (record {
          queued = c.queued;
          sound = c.sound;
          ends = (c.amount, λ hn h. end_of_file n p (read_from n p) i e c hn h);
        })
]
  where
    waits : Outcome × List ℕ × XvPipe
    waits = (if killed then Outcome.failed else Outcome.asleep, [], p)
