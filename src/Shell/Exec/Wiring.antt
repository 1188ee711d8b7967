-- ===== src/Shell/Exec/Wiring.antt =====
-- The standard descriptors of the programs that a line starts.
use mephi_os_labs.Prelude.{
  ℕ, ◌≡◌, refl, sym, ◌∙◌, subst, ◌≢◌, inl, inr, Bool, true, false, ◌||◌, some, List, [], ◌∷◌, arith,
  if◌then◌else◌, Bool-cases,
}
use mephi_os_labs.Shell.Lexer.{Bytes, Token}
use mephi_os_labs.Shell.Syntax.{get_argv}
use mephi_os_labs.Shell.Syntax.Grammar.{Item, words, inputs, outputs}
use mephi_os_labs.Shell.Syntax.Argv.{Reads}
use mephi_os_labs.Shell.Exec.{
  File, write_end, opened, Table, Kernel, IsKernel, FdManager, dup_std, dup_with_open, open_files,
  set_std, Ending, running, came_back, crashed, exec_argv, run_output, run_input, manager,
  run_child,
}
use mephi_os_labs.Shell.Exec.Descriptors.{
  Follows, Follows-refl, Follows-trans, dup_std-Follows, redirected, Sets, dup_with_open-Sets,
}

-- What stands at a standard descriptor behind `set_std`: the file of the redirection if one may
-- stand there, else the end of the pipe.
abbrev pub target : Bool → File → List Bytes → File → File
target may_open before ps end = if may_open then redirected before ps else end

or_false : (a b : Bool) → (a || b) ≡ false → (a ≡ false) × (b ≡ false)
or_false a b h = ground arith

-- A program that runs has the words of its command, and at its standard descriptors the files
-- named; it holds no write end that its parent did not hold.
pub record Wired (argv : List Bytes) (t t' : Table) (stdin stdout : File) (ws : List Bytes)
    : Type 0 where
  pub args : argv ≡ ws
  pub at_in : t' 0 ≡ some stdin
  pub at_out : t' 1 ≡ some stdout
  pub no_new : (x j : ℕ) → t' x ≡ some (write_end j) → (y : ℕ) × (t y ≡ some (write_end j))

abbrev pub Ends : Table → File → File → List Bytes → Ending → Type 0
Ends t stdin stdout ws (running argv t') = Wired argv t t' stdin stdout ws
Ends t stdin stdout ws (came_back _ _) = Unit
Ends t stdin stdout ws crashed = ⊥

module _ (k : Kernel) (law : IsKernel k) where
  Sets-then :
      {m m' : FdManager} {s t v : Table} {f g : File}
      → m'.used_std ≡ m.used_std
      → Sets k law m s t f
      → Sets k law m' t v g
      → Sets k law m s v g
  Sets-then {m} {t} {v} {g} e a b = record {
    follows = Follows-trans a.follows (subst (λ u. Follows u t v) e b.follows);
    at_std = subst (λ u. v u ≡ some g) e b.at_std;
  }

  open_files-Sets :
      (m : FdManager) (f : File) (ps : List Bytes) (writing : Bool) (t : Table)
      → t m.used_std ≡ some f
      → (open_files k m ps writing t).1 ≡ false
      → Sets k law m t (open_files k m ps writing t).2 (redirected f ps)
        × ((open_files k m ps writing t).0.used_std ≡ m.used_std)
  unfolding open_files
  open_files-Sets m f [] writing t s e =
      (record { follows = Follows-refl m.used_std t; at_std = s }, refl)
  open_files-Sets m f (p ∷ []) writing t s e = dup_with_open-Sets k law m p writing t e
  open_files-Sets m f (p ∷ q ∷ ps) writing t s e =
      let (a, b) = or_false _ _ e in
      let (one, same) = dup_with_open-Sets k law m p writing t a in
      let r = dup_with_open k m p writing t in
      let (two, same') =
        open_files-Sets r.0 (opened p) (q ∷ ps) writing r.2
          (subst (λ u. r.2 u ≡ some (opened p)) (sym same) one.at_std) b in
      (Sets-then same one two, same' ∙ same)

  set_std-Sets :
      (may_open writing : Bool) (ps : List Bytes) (m : FdManager) (t : Table) {m' : FdManager}
      {failed : Bool} {t' : Table} {fd : ℕ} (before end : File)
      → m.opened_fd ≡ some fd
      → t fd ≡ some end
      → t m.used_std ≡ some before
      → set_std k may_open writing (some ps) m t ≡ some (m', failed, t')
      → failed ≡ false
      → Sets k law m t t' (target may_open before ps end)
  unfolding set_std
  set_std-Sets true writing ps m t {m'} {failed} {t'} before end o e s q f =
      let r = open_files k m ps writing t in
      let same : r.2 ≡ t' = ground arith in
      let (a, _) = open_files-Sets m before ps writing t s (ground arith) in
      subst (λ v. Sets k law m t v (redirected before ps)) same a
  set_std-Sets false writing ps m t {m'} {failed} {t'} before end o e s q f =
      let (a, b) = dup_std-Follows k law m t o e in
      let same : (dup_std k m t).1 ≡ t' = ground arith in
      subst (λ v. Sets k law m t v end) same (record { follows = a; at_std = b })

  set_std-some :
      (may_open writing : Bool) (ps : List Bytes) (m : FdManager) (t : Table)
      → (r : FdManager × Bool × Table) × (set_std k may_open writing (some ps) m t ≡ some r)
  unfolding set_std
  set_std-some true writing ps m t = (_, refl)
  set_std-some false writing ps m t = (_, refl)

  exec_argv-Ends :
      (argv : List Bytes) (m_in m_out : FdManager) (t t' : Table) (stdin stdout : File)
      → Wired argv t t' stdin stdout argv
      → Ends t stdin stdout argv (exec_argv k argv m_in m_out t')
  unfolding exec_argv
  exec_argv-Ends argv m_in m_out t t' stdin stdout w = elim (Bool-cases (k.starts argv)) [
    | inl e ↦ rw (e, exec_argv) w
    | inr e ↦ rw (e, exec_argv) tt
  ]

  run_output-Ends :
      (c : List Token) (m_in m_out : FdManager) (failed : Bool) (t t' : Table) (stdin stdout : File)
      (ws : List Bytes)
      → get_argv c ≡ some ws
      → (failed ≡ false → Wired ws t t' stdin stdout ws)
      → Ends t stdin stdout ws (run_output k c m_in (some (m_out, failed, t')))
  unfolding run_output
  run_output-Ends c m_in m_out true t t' stdin stdout ws r h = tt
  run_output-Ends c m_in m_out false t t' stdin stdout ws r h =
      rw r (exec_argv-Ends ws m_in m_out t t' stdin stdout (h refl))

  run_input-Ends :
      (c : List Token) (is : List Item) (last failed : Bool) (m_in : FdManager) (w : ℕ)
      (t t' : Table) (stdin before end : File)
      → Reads c is
      → (failed ≡ false → Follows 0 t t' × (t' 0 ≡ some stdin))
      → (failed ≡ false → (t' w ≡ some end) × (t' 1 ≡ some before))
      → Ends t stdin
          (target last before (outputs is) end)
          (words is)
          (run_input k c last (manager 1 w) (some (m_in, failed, t')))
  unfolding run_input
  run_input-Ends c is last true m_in w t t' stdin before end r h h' = tt
  run_input-Ends c is last false m_in w t t' stdin before end r h h' =
      let (f, i) = h refl in
      let (e, s) = h' refl in
      let ((m', failed, t''), q) = set_std-some last true (outputs is) (manager 1 w) t' in
      rw (r.out_path, q)
        (run_output-Ends c m_in m' failed t t'' stdin _ (words is) r.argv (λ b.
          let sets = set_std-Sets last true (outputs is) (manager 1 w) t' before end refl e s q b in
          record {
            args = refl;
            at_in = sets.follows.keeps 0 stdin (omega arith) i;
            at_out = sets.at_std;
            no_new = λ x j z. let v = sets.follows.no_new x j z in f.no_new v.0 j v.1;
          }))

  pub run_child-Ends :
      (c : List Token) (is : List Item) (first last : Bool) (in_fd w : ℕ) (t : Table)
      (before_in end_in before_out end_out : File)
      → Reads c is
      → w ≢ 0
      → t in_fd ≡ some end_in
      → t w ≡ some end_out
      → t 0 ≡ some before_in
      → t 1 ≡ some before_out
      → Ends t
          (target first before_in (inputs is) end_in)
          (target last before_out (outputs is) end_out)
          (words is)
          (run_child k c first last in_fd w t)
  unfolding run_child
  run_child-Ends c is first last in_fd w t before_in end_in before_out end_out r n ei eo s0 s1 =
      let ((m', failed, t'), q) = set_std-some first false (inputs is) (manager 0 in_fd) t in
      let sets = λ (b : failed ≡ false).
        set_std-Sets first false (inputs is) (manager 0 in_fd) t before_in end_in refl ei s0 q b in
      rw (r.in_path, q)
        (run_input-Ends c is last failed m' w t t' _ before_out end_out r
          (λ b. ((sets b).follows, (sets b).at_std))
          (λ b. (
            (sets b).follows.keeps w end_out n eo,
            (sets b).follows.keeps 1 before_out (omega arith) s1,
          )))
