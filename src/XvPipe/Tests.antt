-- ===== src/XvPipe/Tests.antt =====
-- A pipe whose write counter is about to wrap around.
use mephi_os_labs.Prelude.{◌-◌, ◌^◌, ◌≡◌, refl, true, false, none, [], ◌∷◌, ◌++◌, arith}
use mephi_os_labs.XvPipe.{XvPipe, new_pipe, pipewrite, read_from, piperead, pipeclose}
use mephi_os_labs.XvPipe.Queue.{IsPipe}
use mephi_os_labs.XvPipe.Transfer.{Wrote, pipewrite-Wrote}
use mephi_os_labs.XvPipe.Reading.{Read, piperead-Read}
use mephi_os_labs.XvPipe.Fifo.{Run, InOrder, Run-InOrder}

abbrev late : XvPipe
late = record {
  bytes = λ _. 7;
  nread = 2 ^ 32 - 1;
  nwrite = 2 ^ 32 - 1;
  readopen = true;
  writeopen = true;
}

late-IsPipe : IsPipe late
late-IsPipe = record { nread = omega arith; nwrite = omega arith; fits = omega arith }

abbrev written : XvPipe
written = (pipewrite false (1 ∷ 2 ∷ []) late).2

-- Three bytes are asked for and two are there.
piperead-wrapped : (piperead false 3 written).1 ≡ 1 ∷ 2 ∷ []
unfolding pipewrite piperead read_from
piperead-wrapped = refl

pipewrite-Wrote_example : Wrote false (1 ∷ 2 ∷ []) late (pipewrite false (1 ∷ 2 ∷ []) late)
pipewrite-Wrote_example = pipewrite-Wrote false (1 ∷ 2 ∷ []) late late-IsPipe

piperead-Read_example : Read true 3 late (piperead true 3 late)
piperead-Read_example = piperead-Read true 3 late late-IsPipe

abbrev fresh : XvPipe
fresh = new_pipe (λ _. 0)

all_taken : (1 ∷ 2 ∷ []) ++ (pipewrite false (1 ∷ 2 ∷ []) fresh).1 ≡ 1 ∷ 2 ∷ []
unfolding pipewrite
all_taken = refl

Run-InOrder_example :
    InOrder
      (piperead false 1 (pipewrite false (1 ∷ 2 ∷ []) fresh).2).2
      (1 ∷ 2 ∷ [])
      (piperead false 1 (pipewrite false (1 ∷ 2 ∷ []) fresh).2).1
Run-InOrder_example =
    Run-InOrder
      (Run.read false 1 (Run.wrote false (1 ∷ 2 ∷ []) (1 ∷ 2 ∷ []) all_taken (Run.made (λ _. 0))))

-- The second end that is closed frees the page.
pipeclose-freed : pipeclose true (record fresh { readopen = false }) ≡ none
unfolding pipeclose
pipeclose-freed = refl
