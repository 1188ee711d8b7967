-- ===== src/XvPipe/Fifo.antt =====
-- Runs of a pipe with any writers and readers.
use mephi_os_labs.Prelude.{
  ℕ, ◌≡◌, refl, ap, sym, ◌∙◌, subst, Bool, true, false, not, ◌&&◌, none, some, List, [], ◌++◌,
  arith, if◌then◌else◌,
}
use mathlib.Core.List.{append_assoc, append_cancel_right}
use mathlib.Core.Option.{some-injective}
use mephi_os_labs.XvPipe.{XvPipe, new_pipe, pipewrite, piperead, closed_end, pipeclose}
use mephi_os_labs.XvPipe.Queue.{slice, queue, IsPipe}
use mephi_os_labs.XvPipe.Transfer.{pipewrite-Wrote}
use mephi_os_labs.XvPipe.Reading.{piperead-Read}

-- The states of a pipe, with the bytes that writers have put in and those that readers have got. A call
-- that sleeps goes on as another one, with the bytes that it has left.
pub data Run : XvPipe → List ℕ → List ℕ → Type 0 where
  made : (page : ℕ → ℕ) → Run (new_pipe page) [] []
  wrote :
      {p : XvPipe} {sent received : List ℕ} (killed : Bool) (cs taken : List ℕ)
      → taken ++ (pipewrite killed cs p).1 ≡ cs
      → Run p sent received
      → Run (pipewrite killed cs p).2 (sent ++ taken) received
  read :
      {p : XvPipe} {sent received : List ℕ} (killed : Bool) (n : ℕ)
      → Run p sent received
      → Run (piperead killed n p).2 sent (received ++ (piperead killed n p).1)
  closed :
      {p q : XvPipe} {sent received : List ℕ} (writable : Bool)
      → pipeclose writable p ≡ some q
      → Run p sent received
      → Run q sent received

-- A state of a run is sound, and the bytes got followed by those in the pipe are the bytes put in.
pub record InOrder (p : XvPipe) (sent received : List ℕ) : Type 0 where
  pub sound : IsPipe p
  pub order : received ++ queue p ≡ sent

closed_end-InOrder :
    (writable : Bool) (p : XvPipe) (sent received : List ℕ)
    → InOrder p sent received
    → InOrder (closed_end writable p) sent received
closed_end-InOrder true p s r i =
    let w = i.sound in
    record { sound = record { nread = w.nread; nwrite = w.nwrite; fits = w.fits }; order = i.order }
closed_end-InOrder false p s r i =
    let w = i.sound in
    record { sound = record { nread = w.nread; nwrite = w.nwrite; fits = w.fits }; order = i.order }

open_part : (b : Bool) (p q : XvPipe) → (if b then none else some p) ≡ some q → p ≡ q
open_part true p q h = ground arith
open_part false p q h = some-injective p q h

closed-same :
    (writable : Bool) (p q : XvPipe) → pipeclose writable p ≡ some q → closed_end writable p ≡ q
unfolding pipeclose
closed-same writable p q h =
    let c = closed_end writable p in open_part (not c.readopen && not c.writeopen) c q h

made-InOrder : (page : ℕ → ℕ) → InOrder (new_pipe page) [] []
unfolding slice
made-InOrder page = record {
  sound = record { nread = omega arith; nwrite = omega arith; fits = omega arith };
  order = refl;
}

-- First in, first out: in every run of calls of `pipewrite`, `piperead` and `pipeclose`, in any order and
-- with wrap-around of the counters, the bytes that readers have got, followed by those in the pipe, are
-- the bytes that the pipe took from writers; and there are never more than 512 in it.
pub Run-InOrder :
    {p : XvPipe} {sent received : List ℕ} → Run p sent received → InOrder p sent received
Run-InOrder (made page) = made-InOrder page
Run-InOrder (wrote {p = p} {sent = sent} {received = received} killed cs taken e run) =
    let i = Run-InOrder run in
    let w = pipewrite-Wrote killed cs p i.sound in
    let same : w.taken ≡ taken =
      append_cancel_right w.taken taken (pipewrite killed cs p).1 (w.split ∙ sym e) in
    record {
      sound = w.sound;
      order =
          ap (λ x. received ++ x) (w.queued ∙ ap (λ t. queue p ++ t) same)
          ∙ sym (append_assoc received (queue p) taken)
          ∙ ap (λ x. x ++ taken) i.order;
    }
Run-InOrder (read {p = p} {sent = sent} {received = received} killed n run) =
    let i = Run-InOrder run in
    let r = piperead-Read killed n p i.sound in
    record {
      sound = r.sound;
      order =
          append_assoc received (piperead killed n p).1 (queue (piperead killed n p).2)
          ∙ ap (λ x. received ++ x) (sym r.queued)
          ∙ i.order;
    }
Run-InOrder (closed {p = p} {q = q} {sent = sent} {received = received} writable e run) =
    let c = closed_end writable p in
    let same : c ≡ q = closed-same writable p q e in
    subst (λ x. InOrder x sent received) same
      (closed_end-InOrder writable p sent received (Run-InOrder run))
