-- ===== src/Shell/Exec/Line.antt =====
-- The loop of `Exec` over the commands of a line: its pipes, its children, and the descriptors that
-- the shell is left with.
use mephi_os_labs.Prelude.{
  ℕ, suc, ◌+◌, ◌≤◌, ◌<◌, ◌≡◌, refl, ap, ◌∙◌, ◌≢◌, inl, inr, Bool, true, false, Option, none, some,
  List, [], ◌∷◌, arith, ◌==◌, if◌then◌else◌, Bool-cases, Option-cases, length, ==_iff,
}
use mephi_os_labs.Shell.Lexer.{Bytes, Token}
use mephi_os_labs.Shell.Syntax.Grammar.{Item, words, inputs, outputs, IsLine}
use mephi_os_labs.Shell.Syntax.{check_line, ok}
use mephi_os_labs.Shell.Syntax.Argv.{Reads, ReadsAll, check_line-ReadsAll}
use mephi_os_labs.Shell.Exec.{
  File, read_end, write_end, Table, Kernel, IsKernel, Ending, running, came_back, crashed,
  run_child, make_pipe, exec_from, exec, close, is_nil,
}
use mephi_os_labs.Shell.Exec.Pipes.{NoWrites, Made, make_pipe-Made, Round, Made-Round}
use mephi_os_labs.Shell.Exec.Wiring.{target, Ends, run_child-Ends}

-- One child: the program has the words of its command, its two standard descriptors are as given,
-- and of all write ends it holds that of its own pipe at most.
abbrev pub Child : ℕ → File → File → List Bytes → Option Ending → Type 0
Child n stdin stdout ws none = Unit
Child n stdin stdout ws (some (running argv t)) =
    (argv ≡ ws)
    × (t 0 ≡ some stdin)
    × (t 1 ≡ some stdout)
    × ((x j : ℕ) → t x ≡ some (write_end j) → j ≡ n)
Child n stdin stdout ws (some (came_back _ _)) = Unit
Child n stdin stdout ws (some crashed) = ⊥

abbrev no_items : List (List Item) → Bool
no_items [] = true
no_items _ = false

-- The children of a line whose first pipe has the number `n`: one for each command, or fewer where
-- a pipe could not be made.
abbrev pub Children :
    Bool → Bool → ℕ → File → File → File → List (List Item) → List (Option Ending) → Type 0
Children complete first n s0 s1 source [] [] = Unit
Children complete first n s0 s1 source (is ∷ ls) [] = complete ≡ false
Children complete first n s0 s1 source [] (c ∷ cs) = ⊥
Children complete first n s0 s1 source (is ∷ ls) (c ∷ cs) =
    Child n (target first s0 (inputs is) source)
      (target (no_items ls) s1 (outputs is) (write_end n)) (words is) c
    × Children complete false (n + 1) s0 s1 (read_end n) ls cs

-- The table of the shell between two rounds.
record Shell (t : Table) (in_fd : ℕ) (s0 s1 source : File) : Type 0 where
  at_in : t 0 ≡ some s0
  at_out : t 1 ≡ some s1
  at_source : t in_fd ≡ some source
  no_writes : NoWrites t

Ends-Child :
    (n w : ℕ) (t t' : Table) (stdin stdout : File) (ws : List Bytes) (e : Ending)
    → ((x j : ℕ) → t' x ≡ some (write_end j) → j ≡ n)
    → Ends t' stdin stdout ws e
    → Child n stdin stdout ws (some e)
Ends-Child n w t t' stdin stdout ws (running argv u) h z =
    (z.args, z.at_in, z.at_out, λ x j q. let y = z.no_new x j q in h y.0 j y.1)
Ends-Child n w t t' stdin stdout ws (came_back m u) h z = tt
Ends-Child n w t t' stdin stdout ws crashed h z = z

no_items_lem :
    (cs : List (List Token)) (ls : List (List Item)) → ReadsAll cs ls → is_nil cs ≡ no_items ls
no_items_lem [] [] r = refl
no_items_lem (c ∷ cs) (is ∷ ls) r = refl
no_items_lem [] (is ∷ ls) r = elim r [ ]
no_items_lem (c ∷ cs) [] r = elim r [ ]

-- What is left in the shell: no write end, and the read end of each pipe that was made.
record Left (n m : ℕ) (t : Table) (t' : Table) : Type 0 where
  closed : NoWrites t'
  keeps : (x : ℕ) (f : File) → t x ≡ some f → t' x ≡ some f
  leaks : (j : ℕ) → n ≤ j → j < n + m → (x : ℕ) × (t' x ≡ some (read_end j))

module _ (k : Kernel) (law : IsKernel k) where
  spawned-Child :
      (forked : Bool) (first last : Bool) (in_fd n r w : ℕ) (t t' : Table) (s0 s1 source : File)
      (c : List Token) (is : List Item)
      → Reads c is
      → Shell t in_fd s0 s1 source
      → Made k law n r w t t'
      → Child n
          (target first s0 (inputs is) source)
          (target last s1 (outputs is) (write_end n))
          (words is)
          (if forked then some (run_child k c first last in_fd w t') else none)
  spawned-Child false first last in_fd n r w t t' s0 s1 source c is reads h m = tt
  spawned-Child true first last in_fd n r w t t' s0 s1 source c is reads h m =
      Ends-Child n w t t' _ _ (words is) (run_child k c first last in_fd w t')
        (λ x j e. elim (m.writes x j e) [ inl z ↦ absurd (h.no_writes x j z) | inr z ↦ z.1 ])
        (run_child-Ends k law c is first last in_fd w t' s0 source s1 (write_end n) reads
          (λ e. cc (h.at_in, m.new_w, ap t e)) (m.keeps in_fd source h.at_source) m.at_w
          (m.keeps 0 s0 h.at_in) (m.keeps 1 s1 h.at_out))

  Left-suc :
      (n m r w : ℕ) (t v t' : Table)
      → Round k law n r w t v
      → Left (n + 1) m v t'
      → Left n (suc m) t t'
  Left-suc n m r w t v t' a l = record {
    closed = l.closed;
    keeps = λ x f e. l.keeps x f (a.keeps x f e);
    leaks = λ j lo hi. elim (Bool-cases (n == j)) [
      | inl q ↦
          (r, l.keeps r (read_end j) (a.at_r ∙ ap (λ i. some (read_end i)) ((==_iff n j).0 q)))
      | inr q ↦ l.leaks j (ground arith) (omega arith)
    ];
  }

  exec_from-lem :
      (forks : ℕ → Bool) (first : Bool) (in_fd n : ℕ) (t : Table) (s0 s1 source : File)
      (cs : List (List Token)) (ls : List (List Item))
      → ReadsAll cs ls
      → Shell t in_fd s0 s1 source
      → Children
          (exec_from k forks first in_fd n t cs).complete
          first
          n
          s0
          s1
          source
          ls
          (exec_from k forks first in_fd n t cs).children
        × Left n
            (length (exec_from k forks first in_fd n t cs).children)
            t
            (exec_from k forks first in_fd n t cs).table
  unfolding exec_from
  exec_from-lem forks first in_fd n t s0 s1 source [] [] r h = (
    tt,
    record { closed = h.no_writes; keeps = λ x f e. e; leaks = λ j a b. absurd (omega arith) },
  )
  exec_from-lem forks first in_fd n t s0 s1 source [] (is ∷ ls) r h = elim r [ ]
  exec_from-lem forks first in_fd n t s0 s1 source (c ∷ cs) [] r h = elim r [ ]
  exec_from-lem forks first in_fd n t s0 s1 source (c ∷ cs) (is ∷ ls) r h =
      elim (Option-cases (make_pipe k n t)) [
        | inl q ↦
            rw (q, exec_from)
              (
                refl,
                record {
                  closed = h.no_writes;
                  keeps = λ x f e. e;
                  leaks = λ j a b. absurd (omega arith);
                },
              )
        | inr ((pr, pw, t'), q) ↦
            let m = make_pipe-Made k law n pr pw t t' q in
            let v = Made-Round k law n pr pw t t' h.no_writes m in
            let later =
              exec_from-lem forks false pr (n + 1) (close t' (some pw)) s0 s1 (read_end n) cs ls r.1
                (record {
                  at_in = v.keeps 0 s0 h.at_in;
                  at_out = v.keeps 1 s1 h.at_out;
                  at_source = v.at_r;
                  no_writes = v.no_writes;
                }) in
            rw (q, exec_from)
              (
                (
                  rw (← (no_items_lem cs ls r.1)) (
                      spawned-Child (forks n) first (is_nil cs) in_fd n pr pw t t' s0 s1 source c is
                        r.0 h m),
                  later.0,
                ),
                Left-suc n _ pr pw t _ _ v later.1,
              )
      ]

-- A line that follows the grammar is wired as it says. The first program reads the file that its
-- command names, or the input of the shell; each other reads the pipe of the program before it. The
-- last writes to the file named, or to the output of the shell; each other to its own pipe. Every
-- program gets the words of its command, and of all write ends it holds that of its own pipe at
-- most, and the shell is left with none, so a reader meets the end of its input. Nothing is said of
-- a child that did not become a program, or of the commands behind a pipe that could not be made.
-- The shell must have its two standard descriptors open and hold no write end.
pub exec_wires :
    (k : Kernel)
    → IsKernel k
    → (forks : ℕ → Bool) (n : ℕ) (t : Table) (s0 s1 : File) {ts : List Token}
      {cs : List (List Token)} {ls : List (List Item)}
    → t 0 ≡ some s0
    → t 1 ≡ some s1
    → ((x j : ℕ) → t x ≢ some (write_end j))
    → check_line ts ≡ ok cs
    → IsLine true ts ls
    → Children (exec k forks n t cs).complete true n s0 s1 s0 ls (exec k forks n t cs).children
      × ((x j : ℕ) → (exec k forks n t cs).table x ≢ some (write_end j))
exec_wires k law forks n t s0 s1 {cs} {ls} e0 e1 w p l =
    let z =
      exec_from-lem k law forks true 0 n t s0 s1 s0 cs ls (check_line-ReadsAll p l)
        (record { at_in = e0; at_out = e1; at_source = e0; no_writes = w }) in
    (z.0, z.1.closed)

-- Behind a line the shell still holds the read end of every pipe that it made for the line.
pub exec_leaks :
    (k : Kernel)
    → IsKernel k
    → (forks : ℕ → Bool) (n j : ℕ) (t : Table) (s0 s1 : File) {ts : List Token}
      {cs : List (List Token)} {ls : List (List Item)}
    → t 0 ≡ some s0
    → t 1 ≡ some s1
    → ((x j : ℕ) → t x ≢ some (write_end j))
    → check_line ts ≡ ok cs
    → IsLine true ts ls
    → n ≤ j
    → j < n + length (exec k forks n t cs).children
    → (x : ℕ) × ((exec k forks n t cs).table x ≡ some (read_end j))
exec_leaks k law forks n j t s0 s1 {cs} {ls} e0 e1 w p l lo hi =
    (exec_from-lem k law forks true 0 n t s0 s1 s0 cs ls (check_line-ReadsAll p l)
        (record { at_in = e0; at_out = e1; at_source = e0; no_writes = w })).1.leaks
      j lo hi
