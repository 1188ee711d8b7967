-- ===== src/Logger/History.antt =====
-- The files against the history of the events: the chunks of lines between rotations.
use mephi_os_labs.Prelude.{
  ℕ, zero, suc, ◌+◌, ◌≤◌, ◌<◌, ◌≡◌, refl, ap, sym, ◌∙◌, subst, Bool, true, false, some, List, [],
  ◌∷◌, ◌++◌, arith, if◌then◌else◌, length, get_elem?, get_or,
}
use mathlib.Core.List.{append_assoc, append-nil}
use mephi_os_labs.Logger.{
  Line, Files, IsFiles, Event, Logger, rotate, reopen, written, take_line, main_loop, main_start,
}
use mephi_os_labs.Logger.Rotate.{Holds, rotate-moved}

-- A line goes to the end of the newest chunk.
abbrev pub add_line : Line → List (List Line) → List (List Line)
add_line l [] = []
add_line l (c ∷ cs) = (c ++ l ∷ []) ∷ cs

-- The chunks after the events, newest first. Signals that come before the same line count once, and
-- one that no line follows does not count.
abbrev pub history : Bool → List (List Line) → List Event → List (List Line)
history need cs [] = cs
history need cs (Event.line l ∷ es) = history false (add_line l (if need then [] ∷ cs else cs)) es
history need cs (Event.hup ∷ es) = history true cs es
history need cs (Event.eof ∷ es) = cs
history need cs (Event.eintr ∷ es) = history need cs es
history need cs (Event.failed ∷ es) = cs

-- The lines that the logger takes.
abbrev pub lines : List Event → List Line
lines [] = []
lines (Event.line l ∷ es) = l ∷ lines es
lines (Event.hup ∷ es) = lines es
lines (Event.eof ∷ es) = []
lines (Event.eintr ∷ es) = lines es
lines (Event.failed ∷ es) = []

-- The chunks in the order of time, as one list of lines.
unfoldable pub joined : List (List Line) → List Line
joined [] = []
joined (c ∷ cs) = joined cs ++ c

get_elem?-get_or :
    {A : Type 0} (xs : List A) (i : ℕ) (d : A)
    → i < length xs
    → get_elem? xs i ≡ some (get_or xs i d)
get_elem?-get_or [] i d h = absurd (omega arith)
get_elem?-get_or (x ∷ xs) zero d h = refl
get_elem?-get_or (x ∷ xs) (suc i) d h = get_elem?-get_or xs i d (omega arith)

get_elem?_lt : {A : Type 0} (xs : List A) (i : ℕ) (x : A) → get_elem? xs i ≡ some x → i < length xs
get_elem?_lt [] i x h = ground arith
get_elem?_lt (y ∷ ys) zero x h = omega arith
get_elem?_lt (y ∷ ys) (suc i) x h = let r = get_elem?_lt ys i x h in omega arith

-- The stream is on the log file, and the newest files hold the chunks: `cs` and, in the log file, `c`.
pub record IsLogging {F H : Type 0} (fs : Files F H) (laws : IsFiles fs) (s : Logger F H)
    (cs : List (List Line)) : Type 1 where
  pub holds : Holds fs s.files cs
  pub stream : laws.Opens s.files s.log 0
  pub counted : length cs ≡ s.archives + 1

module _ {F H : Type 0} (fs : Files F H) (laws : IsFiles fs) where
  -- A rotation starts an empty chunk.
  reopen-IsLogging :
      (s : Logger F H) (cs : List (List Line))
      → IsLogging fs laws s cs
      → IsLogging fs laws (reopen fs s) ([] ∷ cs)
  unfolding reopen
  reopen-IsLogging s cs i =
      let g : ℕ → List Line = λ j. get_or cs j [] in
      let has : (j : ℕ) → j ≤ s.archives → fs.read s.files j ≡ some (g j) =
        λ j hj. i.holds j (g j) (get_elem?-get_or cs j [] (omega (arith, i.counted))) in
      let moved =
        rotate-moved fs laws s.archives s.files g (λ j _ hj. has j hj) (has 0 (omega arith)) in
      let f1 = rotate fs s.archives s.files in
      let f2 = fs.fclose s.log f1 in
      record {
        holds = λ j c h.
            elim j as (λ j. get_elem? ([] ∷ cs) j ≡ some c → fs.read (fs.fopen 0 f2).0 j ≡ some c) [
              | zero ↦ λ h. laws.created f2 (laws.closed f1 s.log 0 ∙ moved.1) ∙ h
              | suc k ↦ λ h.
                  laws.not_opened f2 {a = 0} {q = suc k} (λ e. omega arith)
                  ∙ laws.closed f1 s.log (suc k)
                  ∙ ap (fs.read f1) (omega arith)
                  ∙ moved.0 k (let q = get_elem?_lt cs k c h in omega (arith, i.counted))
                  ∙ sym (get_elem?-get_or cs k [] (get_elem?_lt cs k c h))
                  ∙ h
            ]
              h;
        stream = laws.fopen-Opens f2 0;
        counted = omega (arith, i.counted);
      }

  -- A line is written to the newest chunk.
  written-IsLogging :
      (l : Line) (s : Logger F H) (cs : List (List Line))
      → IsLogging fs laws s cs
      → IsLogging fs laws (written fs l s) (add_line l cs)
  written-IsLogging l s [] i = absurd (omega (arith, i.counted))
  written-IsLogging l s (c0 ∷ cs) i = record {
    holds = λ j c h.
        elim j
            as (λ j.
              get_elem? ((c0 ++ l ∷ []) ∷ cs) j ≡ some c
              → fs.read (fs.fputs l s.log s.files) j ≡ some c) [
                | zero ↦ λ h. laws.appended s.files l i.stream (i.holds 0 c0 refl) ∙ h
                | suc k ↦ λ h.
                    laws.not_appended s.files {q = suc k} l i.stream (λ e. omega arith)
                    ∙ i.holds (suc k) c h
              ]
          h;
    stream = laws.fputs-Opens s.files l i.stream;
    counted = i.counted;
  }

  start-Holds :
      (f : F) (c : List Line) → fs.read f 0 ≡ some c → Holds fs (main_start fs f).files (c ∷ [])
  unfolding main_start
  start-Holds f c h zero d q = laws.opened f h ∙ q
  start-Holds f c h (suc j) d q = ground arith

  abbrev chunks_for : Bool → List (List Line) → List (List Line)
  chunks_for need cs = if need then [] ∷ cs else cs

  abbrev Taken : Line → Logger F H → List (List Line) → Type 1
  Taken l s cs = IsLogging fs laws (written fs l s) (add_line l cs) × (s.need_rotate ≡ false)

  take_line-on :
      (b : Bool) (l : Line) (s : Logger F H) (cs : List (List Line))
      → s.need_rotate ≡ b
      → IsLogging fs laws s cs
      → IsLogging fs laws (take_line fs l s) (add_line l (chunks_for b cs))
        × ((take_line fs l s).need_rotate ≡ false)
  unfolding take_line reopen
  take_line-on true l s cs e i =
      subst (λ b. Taken l (if b then reopen fs s else s) ([] ∷ cs)) (sym e)
        (written-IsLogging l (reopen fs s) ([] ∷ cs) (reopen-IsLogging s cs i), refl)
  take_line-on false l s cs e i =
      subst (λ b. Taken l (if b then reopen fs s else s) cs) (sym e) (written-IsLogging l s cs i, e)

  run-Holds :
      (s : Logger F H) (b : Bool) (cs : List (List Line)) (es : List Event)
      → s.need_rotate ≡ b
      → IsLogging fs laws s cs
      → Holds fs (main_loop fs s es).1.files (history b cs es)
  unfolding main_loop
  run-Holds s b cs [] e i = i.holds
  run-Holds s b cs (Event.line l ∷ es) e i =
      let r = take_line-on b l s cs e i in
      run-Holds (take_line fs l s) false (add_line l (chunks_for b cs)) es r.1 r.0
  run-Holds s b cs (Event.hup ∷ es) e i =
      run-Holds (record s { need_rotate = true }) true cs es refl
        (record { holds = i.holds; stream = i.stream; counted = i.counted })
  run-Holds s b cs (Event.eof ∷ es) e i = λ j c h. laws.closed s.files s.log j ∙ i.holds j c h
  run-Holds s b cs (Event.eintr ∷ es) e i = run-Holds s b cs es e i
  run-Holds s b cs (Event.failed ∷ es) e i = i.holds

  -- On each run of events the log file and its archives hold the chunks of the history, newest first.
  -- At the start the log file holds `c`, and files from an earlier run may have the archives' names.
  pub main_loop-history :
      (f : F) (c : List Line) (es : List Event)
      → fs.read f 0 ≡ some c
      → Holds fs (main_loop fs (main_start fs f) es).1.files (history false (c ∷ []) es)
  unfolding main_start
  main_loop-history f c es h = run-Holds (main_start fs f) false (c ∷ []) es refl (record {
    holds = λ j d q. start-Holds f c h j d q;
    stream = laws.fopen-Opens f 0;
    counted = refl;
  })

joined-add_line :
    (l : Line) (c : List Line) (cs : List (List Line))
    → joined (add_line l (c ∷ cs)) ≡ joined (c ∷ cs) ++ l ∷ []
unfolding joined
joined-add_line l c cs = sym (append_assoc (joined cs) c (l ∷ []))

joined-empty : (cs : List (List Line)) → joined ([] ∷ cs) ≡ joined cs
unfolding joined
joined-empty cs = append-nil (joined cs)

-- No line is lost, doubled or moved: the chunks in the order of time are what they were, with the lines
-- of the events behind it.
joined-history :
    (b : Bool) (c : List Line) (cs : List (List Line)) (es : List Event)
    → joined (history b (c ∷ cs) es) ≡ joined (c ∷ cs) ++ lines es
joined-history b c cs [] = sym (append-nil (joined (c ∷ cs)))
joined-history true c cs (Event.line l ∷ es) =
    joined-history false (l ∷ []) (c ∷ cs) es
    ∙ ap (λ x. x ++ lines es)
        (joined-add_line l [] (c ∷ cs) ∙ ap (λ x. x ++ l ∷ []) (joined-empty (c ∷ cs)))
    ∙ append_assoc (joined (c ∷ cs)) (l ∷ []) (lines es)
joined-history false c cs (Event.line l ∷ es) =
    joined-history false (c ++ l ∷ []) cs es
    ∙ ap (λ x. x ++ lines es) (joined-add_line l c cs)
    ∙ append_assoc (joined (c ∷ cs)) (l ∷ []) (lines es)
joined-history b c cs (Event.hup ∷ es) = joined-history true c cs es
joined-history b c cs (Event.eof ∷ es) = sym (append-nil (joined (c ∷ cs)))
joined-history b c cs (Event.eintr ∷ es) = joined-history b c cs es
joined-history b c cs (Event.failed ∷ es) = sym (append-nil (joined (c ∷ cs)))

-- After a run there are chunks that the log file and the archives hold, newest first, and that make up
-- in the order of time the old log file followed by the lines that the logger took.
pub main_loop-joined :
    {F H : Type 0} (fs : Files F H) (laws : IsFiles fs) (f : F) (c : List Line) (es : List Event)
    → fs.read f 0 ≡ some c
    → (cs : List (List Line)) × Holds fs (main_loop fs (main_start fs f) es).1.files cs
      × (joined cs ≡ c ++ lines es)
unfolding joined
main_loop-joined fs laws f c es h =
    (history false (c ∷ []) es, main_loop-history fs laws f c es h, joined-history false c [] es)
