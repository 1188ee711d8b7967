-- ===== src/Shell/Exec.antt =====
-- bash/pipe/bash.h: `Exec` behind the syntax check. A process is its table of file descriptors.
-- `fork` copies the table; what the kernel chooses (descriptors, which files open, which programs
-- run) is a parameter.
pub mod Descriptors
pub mod Wiring
pub mod Pipes
pub mod Line
use mathlib.Core.Option
use mephi_os_labs.Prelude.{
  ℕ, ◌+◌, ◌≡◌, Bool, true, false, ◌||◌, Option, none, some, List, [], ◌∷◌, ◌==◌, if◌then◌else◌,
}
use mephi_os_labs.Shell.Lexer.{Bytes, Token}
use mephi_os_labs.Shell.Syntax.{get_argv, opened_paths}

-- What a descriptor refers to; the pipes are numbered in the order of their creation.
pub data File : Type 0 where
  inherited : ℕ → File
  read_end : ℕ → File
  write_end : ℕ → File
  opened : Bytes → File

abbrev pub Table : Type 0
Table = ℕ → Option File

abbrev pub put : Table → ℕ → Option File → Table
put t fd f j = if fd == j then f else t j

-- The kernel: a descriptor that is not in use, or none if the limit is met; whether a path opens
-- (the flag says for writing), and whether a program starts.
pub record Kernel : Type 0 where
  pub alloc : Table → Option ℕ
  pub opens : Bytes → Bool → Bool
  pub starts : List Bytes → Bool

-- `alloc` gives a descriptor that is not open.
abbrev pub IsKernel : Kernel → Type 0
IsKernel k = (t : Table) (fd : ℕ) → k.alloc t ≡ some fd → t fd ≡ none

-- `struct FdManager`; -1 is `none`.
pub record FdManager : Type 0 where
  pub used_std : ℕ
  pub saved_std : Option ℕ
  pub opened_fd : Option ℕ

-- `dup2(old, new)` and `close(fd)`; with a descriptor that is not open they fail and do nothing.
unfoldable pub dup2 : Table → Option ℕ → ℕ → Table
dup2 t none new = t
dup2 t (some old) new = elim (t old) [ none ↦ t | some f ↦ put t new (some f) ]

abbrev pub close : Table → Option ℕ → Table
close t none = t
close t (some fd) = put t fd none

-- The first part of `ResetStdIO`.
restore_std : FdManager → Table → Table
unfolding dup2
restore_std m t = elim m.saved_std [
  | none ↦ t
  | some s ↦ close (dup2 t (some s) m.used_std) (some s)
]

-- `ResetStdIO`
unfoldable pub reset_std_io : FdManager → Table → Table
unfolding restore_std
reset_std_io m t = close (restore_std m t) m.opened_fd

abbrev both : Option ℕ → Option ℕ → Table → Option (ℕ × ℕ × Table)
both (some r) (some w) t = some (r, w, t)
both _ _ t = none

module _ (k : Kernel) where
  -- A new descriptor for `f`.
  unfoldable pub install : Table → File → Option ℕ × Table
  install t f = elim (k.alloc t) [ none ↦ (none, t) | some fd ↦ (some fd, put t fd (some f)) ]

  -- `dup(fd)`
  unfoldable pub dup : Table → ℕ → Option ℕ × Table
  unfolding install
  dup t fd = elim (t fd) [ none ↦ (none, t) | some f ↦ install t f ]

  -- `Dup`
  unfoldable pub dup_std : FdManager → Table → FdManager × Table
  unfolding dup dup2
  dup_std m t =
      let (saved, t') = dup t m.used_std in
      (record m { saved_std = saved }, dup2 t' m.opened_fd m.used_std)

  -- `open(path, flags)`
  unfoldable pub open_file : Bytes → Bool → Table → Option ℕ × Table
  unfolding install
  open_file path writing t = if k.opens path writing then install t (opened path) else (none, t)

  -- The test of `opened_fd` in `DupWithOpen`.
  unfoldable pub after_open : FdManager → Option ℕ → Table → FdManager × Bool × Table
  unfolding dup_std
  after_open m none t = (record m { opened_fd = none }, true, t)
  after_open m (some fd) t =
      let r = dup_std (record m { opened_fd = some fd }) t in (r.0, false, r.1)

  -- `DupWithOpen`; the Boolean of the result is `*io_error`.
  unfoldable pub dup_with_open : FdManager → Bytes → Bool → Table → FdManager × Bool × Table
  unfolding open_file after_open
  dup_with_open m path writing t = let r = open_file path writing t in after_open m r.0 r.1

  -- The loop of `ValidateIOAndOpenFile` over the paths that it opens.
  unfoldable pub open_files : FdManager → List Bytes → Bool → Table → FdManager × Bool × Table
  unfolding dup_with_open
  open_files m [] writing t = (m, false, t)
  open_files m (p ∷ []) writing t = dup_with_open m p writing t
  open_files m (p ∷ q ∷ ps) writing t =
      let r = dup_with_open m p writing t in
      let r' = open_files r.0 (q ∷ ps) writing r.2 in (r'.0, r.1 || r'.1, r'.2)

  -- `pipe(pipefd)`: the two descriptors and the new table, or a failure.
  unfoldable pub make_pipe : ℕ → Table → Option (ℕ × ℕ × Table)
  unfolding install
  make_pipe n t =
      let r = install t (read_end n) in let w = install r.1 (write_end n) in both r.0 w.0 w.1

-- A manager as `Exec` makes it.
abbrev manager : ℕ → ℕ → FdManager
manager std fd = record { used_std = std; saved_std = none; opened_fd = some fd }

-- How a child leaves `Exec`: as another program, by a return with a message on its way out, or by a
-- read through NULL.
pub data Message : Type 0 where
  io_error command_nf : Message

pub data Ending : Type 0 where
  running : List Bytes → Table → Ending
  came_back : Message → Table → Ending
  crashed : Ending

module _ (k : Kernel) where
  -- `Dup`, or `ValidateIOAndOpenFile` where the command may name a file.
  unfoldable pub set_std :
      Bool → Bool → Option (List Bytes) → FdManager → Table → Option (FdManager × Bool × Table)
  unfolding dup_std open_files
  set_std may_open writing paths m t =
      if may_open
      then Option.map (λ ps. open_files k m ps writing t) paths
      else some (let (m', t') = dup_std k m t in (m', false, t'))

  -- `execvp` and what follows it if it fails.
  unfoldable pub exec_argv : List Bytes → FdManager → FdManager → Table → Ending
  unfolding reset_std_io
  exec_argv argv m_in m_out t =
      if k.starts argv
      then running argv t
      else came_back command_nf (reset_std_io m_out (reset_std_io m_in t))

  run_argv : Option (List Bytes) → FdManager → FdManager → Table → Ending
  unfolding exec_argv
  run_argv none m_in m_out t = crashed
  run_argv (some argv) m_in m_out t = exec_argv argv m_in m_out t

  -- Behind the setting of the output.
  run_output : List Token → FdManager → Option (FdManager × Bool × Table) → Ending
  unfolding run_argv reset_std_io
  run_output command m_in none = crashed
  run_output command m_in (some (m_out, failed, t)) =
      if failed
      then came_back io_error (reset_std_io m_out (reset_std_io m_in t))
      else run_argv (get_argv command) m_in m_out t

  -- Behind the setting of the input.
  run_input : List Token → Bool → FdManager → Option (FdManager × Bool × Table) → Ending
  unfolding run_output set_std
  run_input command last m_out none = crashed
  run_input command last m_out (some (m_in, failed, t)) =
      if failed
      then came_back io_error (reset_std_io m_out (reset_std_io m_in t))
      else run_output command m_in (set_std last true (opened_paths false true command) m_out t)

  -- The branch of the child.
  unfoldable pub run_child : List Token → Bool → Bool → ℕ → ℕ → Table → Ending
  unfolding run_input
  run_child command first last in_fd out_fd t =
      run_input command last (manager 1 out_fd)
        (set_std first false (opened_paths true false command) (manager 0 in_fd) t)

-- What the parent has done: its table, whether all pipes could be made, and its children in order
-- (none where `fork` failed).
pub record Parent : Type 0 where
  pub table : Table
  pub complete : Bool
  pub children : List (Option Ending)

abbrev is_nil : List (List Token) → Bool
is_nil [] = true
is_nil _ = false

-- The loop of `Exec` from the command `i` on. `n` is the number of the next pipe; `forks n` says
-- whether the `fork` behind it succeeds.
unfoldable pub exec_from : Kernel → (ℕ → Bool) → Bool → ℕ → ℕ → Table → List (List Token) → Parent
unfolding make_pipe run_child
exec_from k forks first in_fd n t [] = record { table = t; complete = true; children = [] }
exec_from k forks first in_fd n t (c ∷ cs) = elim (make_pipe k n t) [
  | none ↦ record { table = t; complete = false; children = [] }
  | some (r, w, t') ↦
      let child : Option Ending =
        if forks n then some (run_child k c first (is_nil cs) in_fd w t') else none in
      let rest = exec_from k forks false r (n + 1) (close t' (some w)) cs in
      record rest { children = child ∷ rest.children }
]

-- `Exec` behind the syntax check: `in_fd` is `STDIN_FILENO`.
abbrev pub exec : Kernel → (ℕ → Bool) → ℕ → Table → List (List Token) → Parent
exec k forks n t cs = exec_from k forks true 0 n t cs
