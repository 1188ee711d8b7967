-- ===== src/Logger.antt =====
-- fs/logger/main.c: lines of the standard input go to a log file, which SIGHUP makes the logger rotate.
-- Name 0 is the log file and name `i` the file with the suffix `.i`; names that `asprintf` makes of
-- different numbers differ. A line is what one call of `fgets` reads.
pub mod Rotate
pub mod History
mod Tests
use mephi_os_labs.Prelude.{
  ℕ, zero, suc, ◌+◌, ◌≡◌, ◌≢◌, Bool, true, false, Option, none, some, List, [], ◌∷◌, ◌++◌,
  if◌then◌else◌,
}

abbrev pub Line : Type 0
Line = List ℕ

-- What the logger uses of the C library: `rename`, `fopen` with "a", `fputs` and `fclose`. A line
-- counts as written when `fputs` returns.
pub record Files (F H : Type 0) : Type 0 where
  pub read : F → ℕ → Option (List Line)
  pub rename : ℕ → ℕ → F → F
  pub fopen : ℕ → F → F × H
  pub fputs : Line → H → F → F
  pub fclose : H → F → F

-- What they are documented to do; `Opens f h a` says that `h` is a stream on the file named `a`.
pub record IsFiles {F H : Type 0} (fs : Files F H) : Type 1 where
  pub Opens : F → H → ℕ → Type 0
  pub renamed :
      (f : F) {a b : ℕ} {c : List Line}
      → fs.read f a ≡ some c
      → a ≢ b
      → fs.read (fs.rename a b f) b ≡ some c
  pub gone :
      (f : F) {a b : ℕ} {c : List Line}
      → fs.read f a ≡ some c
      → a ≢ b
      → fs.read (fs.rename a b f) a ≡ none
  pub not_renamed : (f : F) {a b q : ℕ} → q ≢ a → q ≢ b → fs.read (fs.rename a b f) q ≡ fs.read f q
  pub created : (f : F) {a : ℕ} → fs.read f a ≡ none → fs.read (fs.fopen a f).0 a ≡ some []
  pub opened :
      (f : F) {a : ℕ} {c : List Line} → fs.read f a ≡ some c → fs.read (fs.fopen a f).0 a ≡ some c
  pub not_opened : (f : F) {a q : ℕ} → q ≢ a → fs.read (fs.fopen a f).0 q ≡ fs.read f q
  pub fopen-Opens : (f : F) (a : ℕ) → Opens (fs.fopen a f).0 (fs.fopen a f).1 a
  pub appended :
      (f : F) {h : H} {a : ℕ} {c : List Line} (l : Line)
      → Opens f h a
      → fs.read f a ≡ some c
      → fs.read (fs.fputs l h f) a ≡ some (c ++ l ∷ [])
  pub not_appended :
      (f : F) {h : H} {a q : ℕ} (l : Line)
      → Opens f h a
      → q ≢ a
      → fs.read (fs.fputs l h f) q ≡ fs.read f q
  pub fputs-Opens : (f : F) {h : H} {a : ℕ} (l : Line) → Opens f h a → Opens (fs.fputs l h f) h a
  pub closed : (f : F) (h : H) (q : ℕ) → fs.read (fs.fclose h f) q ≡ fs.read f q

-- What the loop of `main` meets: a line, a signal, the end of the input, an interrupted read, and a
-- read that fails otherwise.
pub data Event : Type 0 where
  line : Line → Event
  hup : Event
  eof : Event
  eintr : Event
  failed : Event

-- The variables: `archives` is `max_idx + 1`.
pub record Logger (F H : Type 0) : Type 0 where
  pub files : F
  pub log : H
  pub archives : ℕ
  pub need_rotate : Bool

module _ {F H : Type 0} (fs : Files F H) where
  -- The loop of `rotate`, down from `i`.
  unfoldable pub shift : ℕ → F → F
  shift zero f = f
  shift (suc i) f = shift i (fs.rename (i + 1) (i + 2) f)

  -- `rotate`, with the new `max_idx`.
  unfoldable pub rotate : ℕ → F → F
  rotate max_idx f = fs.rename 0 1 (shift max_idx f)

  -- The branch with `NEED_ROTATE`.
  unfoldable pub reopen : Logger F H → Logger F H
  unfolding rotate
  reopen s =
      let r = fs.fopen 0 (fs.fclose s.log (rotate s.archives s.files)) in
      record { files = r.0; log = r.1; archives = s.archives + 1; need_rotate = false }

  abbrev pub written : Line → Logger F H → Logger F H
  written l s = record s { files = fs.fputs l s.log s.files }

  -- The body of the loop for a line that `fgets` gives.
  unfoldable pub take_line : Line → Logger F H → Logger F H
  unfolding reopen
  take_line l s = written l (if s.need_rotate then reopen s else s)

  -- The loop of `main`: the exit status, if it ends, and the state.
  unfoldable pub main_loop : Logger F H → List Event → Option ℕ × Logger F H
  unfolding take_line
  main_loop s [] = (none, s)
  main_loop s (line l ∷ es) = main_loop (take_line l s) es
  main_loop s (hup ∷ es) = main_loop (record s { need_rotate = true }) es
  main_loop s (eof ∷ es) = (some 0, record s { files = fs.fclose s.log s.files })
  main_loop s (eintr ∷ es) = main_loop s es
  main_loop s (failed ∷ es) = (some 1, s)

  -- `main` up to its loop.
  unfoldable pub main_start : F → Logger F H
  main_start f =
      let r = fs.fopen 0 f in record { files = r.0; log = r.1; archives = 0; need_rotate = false }
