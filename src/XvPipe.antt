-- ===== src/XvPipe.antt =====
-- signal/alarm/pipe.c: the pipe of xv6, a ring of 512 bytes with two counters of 32 bits. Each function
-- holds the pipe's lock, but while it sleeps; a function ends here where it sleeps, and goes on from its
-- loop when it is woken.
pub mod Queue
pub mod Transfer
pub mod Reading
pub mod Fifo
mod Tests
use mephi_os_labs.Prelude.{
  ℕ, zero, suc, ◌+◌, ◌%◌, ◌^◌, Bool, true, false, not, ◌&&◌, ◌||◌, Option, none, some, List, [],
  ◌∷◌, ◌==◌, if◌then◌else◌,
}

-- `struct pipe` without its lock.
pub record XvPipe : Type 0 where
  pub bytes : ℕ → ℕ
  pub nread : ℕ
  pub nwrite : ℕ
  pub readopen : Bool
  pub writeopen : Bool

-- What `pipealloc` sets; the page comes with any bytes.
abbrev pub new_pipe : (ℕ → ℕ) → XvPipe
new_pipe page = record { bytes = page; nread = 0; nwrite = 0; readopen = true; writeopen = true }

-- How a call ends: it returns, it gives up with -1, or it sleeps.
pub data Outcome : Type 0 where
  returned : Outcome
  failed : Outcome
  asleep : Outcome

-- `p->nwrite == p->nread + PIPESIZE`
abbrev pub is_full : XvPipe → Bool
is_full p = p.nwrite == (p.nread + 512) % 2 ^ 32

-- `p->nread == p->nwrite`
abbrev pub is_drained : XvPipe → Bool
is_drained p = p.nread == p.nwrite

abbrev pub store : (ℕ → ℕ) → ℕ → ℕ → ℕ → ℕ
store bytes i c q = if q == i then c else bytes q

-- `p->bytes[p->nwrite++ % PIPESIZE] = addr[i]`
abbrev pub put : ℕ → XvPipe → XvPipe
put c p = record p { bytes = store p.bytes (p.nwrite % 512) c; nwrite = (p.nwrite + 1) % 2 ^ 32 }

-- The loop of `pipewrite`: its outcome, the bytes that are left, and the pipe.
unfoldable pub pipewrite : Bool → List ℕ → XvPipe → Outcome × List ℕ × XvPipe
pipewrite killed [] p = (Outcome.returned, [], p)
pipewrite killed (c ∷ cs) p =
    let rest = pipewrite killed cs (put c p) in
    let stop = if not p.readopen || killed then Outcome.failed else Outcome.asleep in
    if is_full p then (stop, c ∷ cs, p) else rest

-- `p->nread++`
abbrev pub got : XvPipe → XvPipe
got p = record p { nread = (p.nread + 1) % 2 ^ 32 }

abbrev pub with_byte : ℕ → List ℕ × XvPipe → List ℕ × XvPipe
with_byte c r = (c ∷ r.0, r.1)

-- The copying loop of `piperead`, for at most `n` bytes.
unfoldable pub read_from : ℕ → XvPipe → List ℕ × XvPipe
read_from zero p = ([], p)
read_from (suc n) p =
    let rest = read_from n (got p) in
    if is_drained p then ([], p) else with_byte (p.bytes (p.nread % 512)) rest

abbrev pub copied : List ℕ × XvPipe → Outcome × List ℕ × XvPipe
copied r = (Outcome.returned, r.0, r.1)

-- `piperead`: its outcome, the bytes that it reads, and the pipe.
unfoldable pub piperead : Bool → ℕ → XvPipe → Outcome × List ℕ × XvPipe
unfolding read_from
piperead killed n p =
    if is_drained p && p.writeopen
    then (if killed then Outcome.failed else Outcome.asleep, [], p)
    else copied (read_from n p)

abbrev pub closed_end : Bool → XvPipe → XvPipe
closed_end writable p =
    if writable then record p { writeopen = false } else record p { readopen = false }

-- `pipeclose`: none when the page is freed.
unfoldable pub pipeclose : Bool → XvPipe → Option XvPipe
pipeclose writable p =
    let q = closed_end writable p in if not q.readopen && not q.writeopen then none else some q
