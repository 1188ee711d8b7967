-- ===== src/Logger/Tests.antt =====
-- The logger over files that are a function from names to their lines, in a directory that has an archive
-- of an earlier run.
use mephi_os_labs.Prelude.{
  ℕ, zero, suc, ◌+◌, ◌≤◌, ◌<◌, ◌≡◌, refl, ap, sym, ◌∙◌, ◌≢◌, true, false, Option, none, some, List,
  [], ◌∷◌, ◌++◌, arith, ◌==◌, if◌then◌else◌,
}
use mephi_os_labs.Logger.{Line, Files, IsFiles, Event, shift, rotate, main_loop, main_start}
use mephi_os_labs.Logger.Rotate.{Covers, Holds, rotate-moved}
use mephi_os_labs.Logger.History.{main_loop-history}

abbrev Table : Type 0
Table = ℕ → Option (List Line)

abbrev with_file : ℕ → Option (List Line) → Table → Table
with_file a o f q = if q == a then o else f q

abbrev moved : Option (List Line) → ℕ → ℕ → Table → Table
moved none a b f = f
moved (some c) a b f = with_file b (some c) (with_file a none f)

abbrev or_empty : Option (List Line) → List Line
or_empty none = []
or_empty (some c) = c

abbrev tables : Files Table ℕ
tables = record {
  read = λ f a. f a;
  rename = λ a b f. moved (f a) a b f;
  fopen = λ a f. (with_file a (some (or_empty (f a))) f, a);
  fputs = λ l h f. with_file h (some (or_empty (f h) ++ l ∷ [])) f;
  fclose = λ h f. f;
}

with_file-same : (a b : ℕ) (o : Option (List Line)) (f : Table) → b ≡ a → with_file a o f b ≡ o
with_file-same a b o f e = ap (λ t. if t then o else f b) (flag a b e)
  where
    flag : (a b : ℕ) → b ≡ a → (b == a) ≡ true
    flag a b e = ground arith

with_file-other : (a q : ℕ) (o : Option (List Line)) (f : Table) → q ≢ a → with_file a o f q ≡ f q
with_file-other a q o f h = ap (λ t. if t then o else f q) (flag a q h)
  where
    flag : (a b : ℕ) → b ≢ a → (b == a) ≡ false
    flag a b e = ground arith

moved-other :
    (o : Option (List Line)) (a b q : ℕ) (f : Table) → q ≢ a → q ≢ b → moved o a b f q ≡ f q
moved-other none a b q f ha hb = refl
moved-other (some c) a b q f ha hb =
    with_file-other b q (some c) (with_file a none f) hb ∙ with_file-other a q none f ha

tables-IsFiles : IsFiles tables
tables-IsFiles = record {
  Opens = λ f h a. h ≡ a;
  renamed = λ f {a} {b} {c} h ne.
      ap (λ o. moved o a b f b) h ∙ with_file-same b b (some c) (with_file a none f) refl;
  gone = λ f {a} {b} {c} h ne.
      ap (λ o. moved o a b f a) h
      ∙ with_file-other b a (some c) (with_file a none f) ne
      ∙ with_file-same a a none f refl;
  not_renamed = λ f {a} {b} {q} ha hb. moved-other (f a) a b q f ha hb;
  created =
      λ f {a} h. with_file-same a a (some (or_empty (f a))) f refl ∙ ap (λ o. some (or_empty o)) h;
  opened =
      λ f {a} h. with_file-same a a (some (or_empty (f a))) f refl ∙ ap (λ o. some (or_empty o)) h;
  not_opened = λ f {a} {q} h. with_file-other a q (some (or_empty (f a))) f h;
  fopen-Opens = λ f a. refl;
  appended = λ f {h} {a} {c} l e r.
      with_file-same h a (some (or_empty (f h) ++ l ∷ [])) f (sym e)
      ∙ ap (λ o. some (or_empty o ++ l ∷ [])) (ap f e ∙ r);
  not_appended = λ f {h} {a} {q} l e ne.
      with_file-other h q (some (or_empty (f h) ++ l ∷ [])) f (λ x. ne (x ∙ e));
  fputs-Opens = λ f l e. e;
  closed = λ f h q. refl;
}

-- The log file has the line 1 and the archive of an earlier run the line 9.
abbrev directory : Table
directory = with_file 0 (some ((1 ∷ []) ∷ [])) (with_file 1 (some ((9 ∷ []) ∷ [])) (λ q. none))

-- The signal comes twice before the line 3, and once before the line 4.
abbrev events : List Event
events =
    Event.line (2 ∷ [])
    ∷ Event.hup
    ∷ Event.eintr
    ∷ Event.hup
    ∷ Event.line (3 ∷ [])
    ∷ Event.hup
    ∷ Event.line (4 ∷ [])
    ∷ Event.hup
    ∷ Event.eof
    ∷ []

main_loop-history_example :
    Holds tables
      (main_loop tables (main_start tables directory) events).1.files
      (((4 ∷ []) ∷ []) ∷ ((3 ∷ []) ∷ []) ∷ ((1 ∷ []) ∷ (2 ∷ []) ∷ []) ∷ [])
main_loop-history_example =
    main_loop-history tables tables-IsFiles directory ((1 ∷ []) ∷ []) events refl

-- The archive of an earlier run is overwritten by the first rotation.
archive-lost : rotate tables 0 directory 1 ≡ some ((1 ∷ []) ∷ [])
unfolding rotate shift
archive-lost = refl

abbrev chunk : ℕ → List Line
chunk zero = (1 ∷ []) ∷ []
chunk (suc j) = (9 ∷ []) ∷ []

directory-Covers : Covers tables directory chunk 1
directory-Covers zero h1 hj = absurd (omega arith)
directory-Covers (suc zero) h1 hj = refl
directory-Covers (suc (suc j)) h1 hj = absurd (omega arith)

rotate-moved_example :
    ((j : ℕ) → j ≤ 1 → rotate tables 1 directory (j + 1) ≡ some (chunk j))
    × (rotate tables 1 directory 0 ≡ none)
    × ((q : ℕ) → 2 < q → rotate tables 1 directory q ≡ directory q)
rotate-moved_example = rotate-moved tables tables-IsFiles 1 directory chunk directory-Covers refl
