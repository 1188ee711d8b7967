-- ===== src/Shell/Syntax/Argv.antt =====
-- What the scans of `Exec` read from the commands of a line that it has accepted.
use mephi_os_labs.Prelude.{
  ℕ, ◌+◌, ◌≡◌, refl, ap, sym, ◌∙◌, inl, inr, Bool, true, false, Option, none, some, List, [], ◌∷◌,
  arith, if◌then◌else◌, Option-cases, length,
}
use mathlib.Core.Option
use mathlib.Core.Path.{subst}
use mephi_os_labs.Shell.Lexer.{Bytes, TokenType, word, infile, outfile, pipe, Token, text}
use mephi_os_labs.Shell.Syntax.{
  is_pipe, is_command_end, ok, count_commands, split_from, split_in_commands, check_line, get_argv,
  get_argc, opened_paths,
}
use mephi_os_labs.Shell.Syntax.Grammar.{
  Item, arg, input, output, spelled, words, inputs, outputs, IsLine,
}
use mephi_os_labs.Shell.Syntax.Pipeline.{Points, PointsAll, IsLine-Accepted, check_line-Accepted}

is_pipe→pipe : (ty : TokenType) → is_pipe ty ≡ true → ty ≡ pipe
is_pipe→pipe ty h = ground arith

scans_end :
    (rest : List Token)
    → is_command_end rest ≡ true
    → (get_argv rest ≡ some [])
      × (get_argc rest ≡ some 0)
      × ((first last : Bool) → opened_paths first last rest ≡ some [])
unfolding get_argv get_argc opened_paths
scans_end [] h = (refl, refl, λ f l. refl)
scans_end (t ∷ []) h = let e = is_pipe→pipe t.type h in (rw e, rw e, λ f l. rw e)
scans_end (t ∷ u ∷ ts) h = let e = is_pipe→pipe t.type h in (rw e, rw e, λ f l. rw e)

scans_word :
    (w : Token) (s : List Token)
    → w.type ≡ word
    → (get_argv (w ∷ s) ≡ Option.map (◌∷◌ (text w)) (get_argv s))
      × (get_argc (w ∷ s) ≡ Option.map (λ n. n + 1) (get_argc s))
      × ((first last : Bool) → opened_paths first last (w ∷ s) ≡ opened_paths first last s)
unfolding get_argv get_argc opened_paths
scans_word w [] e = (rw e, rw e, λ f l. rw e)
scans_word w (u ∷ s) e = (rw e, rw e, λ f l. rw e)

scans_input :
    (op f : Token) (s : List Token)
    → op.type ≡ infile
    → (get_argv (op ∷ f ∷ s) ≡ get_argv s)
      × (get_argc (op ∷ f ∷ s) ≡ get_argc s)
      × ((first last : Bool)
          → opened_paths first last (op ∷ f ∷ s)
            ≡ Option.map (λ ps. if first then text f ∷ ps else ps) (opened_paths first last s))
unfolding get_argv get_argc opened_paths
scans_input op f s e = (rw e, rw e, λ a l. rw e)

scans_output :
    (op f : Token) (s : List Token)
    → op.type ≡ outfile
    → (get_argv (op ∷ f ∷ s) ≡ get_argv s)
      × (get_argc (op ∷ f ∷ s) ≡ get_argc s)
      × ((first last : Bool)
          → opened_paths first last (op ∷ f ∷ s)
            ≡ Option.map (λ ps. if last then text f ∷ ps else ps) (opened_paths first last s))
unfolding get_argv get_argc opened_paths
scans_output op f s e = (rw e, rw e, λ a l. rw e)

-- The paths that the flags allow, in the order of the tokens.
abbrev pub files : Bool → Bool → List Item → List Bytes
files first last [] = []
files first last (arg _ _ ∷ is) = files first last is
files first last (input _ f _ _ ∷ is) =
    if first then text f ∷ files first last is else files first last is
files first last (output _ f _ _ ∷ is) =
    if last then text f ∷ files first last is else files first last is

files-inputs : (is : List Item) → files true false is ≡ inputs is
files-inputs [] = refl
files-inputs (arg _ _ ∷ is) = files-inputs is
files-inputs (input _ f _ _ ∷ is) = ap (◌∷◌ (text f)) (files-inputs is)
files-inputs (output _ f _ _ ∷ is) = files-inputs is

files-outputs : (is : List Item) → files false true is ≡ outputs is
files-outputs [] = refl
files-outputs (arg _ _ ∷ is) = files-outputs is
files-outputs (input _ f _ _ ∷ is) = files-outputs is
files-outputs (output _ f _ _ ∷ is) = ap (◌∷◌ (text f)) (files-outputs is)

module _ (rest : List Token) (h : is_command_end rest ≡ true) where
  get_argv-spelled : (is : List Item) → get_argv (spelled is rest) ≡ some (words is)
  get_argv-spelled [] = (scans_end rest h).0
  get_argv-spelled (arg w e ∷ is) =
      (scans_word w (spelled is rest) e).0 ∙ ap (Option.map (◌∷◌ (text w))) (get_argv-spelled is)
  get_argv-spelled (input op f e w ∷ is) =
      (scans_input op f (spelled is rest) e).0 ∙ get_argv-spelled is
  get_argv-spelled (output op f e w ∷ is) =
      (scans_output op f (spelled is rest) e).0 ∙ get_argv-spelled is

  get_argc-spelled : (is : List Item) → get_argc (spelled is rest) ≡ some (length (words is))
  get_argc-spelled [] = (scans_end rest h).1
  get_argc-spelled (arg w e ∷ is) =
      (scans_word w (spelled is rest) e).1 ∙ rw (get_argc-spelled is) (ap some (omega arith))
  get_argc-spelled (input op f e w ∷ is) =
      (scans_input op f (spelled is rest) e).1 ∙ get_argc-spelled is
  get_argc-spelled (output op f e w ∷ is) =
      (scans_output op f (spelled is rest) e).1 ∙ get_argc-spelled is

  opened_paths-spelled :
      (first last : Bool) (is : List Item)
      → opened_paths first last (spelled is rest) ≡ some (files first last is)
  opened_paths-spelled first last [] = (scans_end rest h).2 first last
  opened_paths-spelled first last (arg w e ∷ is) =
      (scans_word w (spelled is rest) e).2 first last ∙ opened_paths-spelled first last is
  opened_paths-spelled first last (input op f e w ∷ is) =
      (scans_input op f (spelled is rest) e).2 first last
      ∙ rw (opened_paths-spelled first last is) (ground arith)
  opened_paths-spelled first last (output op f e w ∷ is) =
      (scans_output op f (spelled is rest) e).2 first last
      ∙ rw (opened_paths-spelled first last is) (ground arith)

-- What the scans of one command give.
pub record Reads (c : List Token) (is : List Item) : Type 0 where
  pub argv : get_argv c ≡ some (words is)
  pub argc : get_argc c ≡ some (length (words is))
  pub in_path : opened_paths true false c ≡ some (inputs is)
  pub out_path : opened_paths false true c ≡ some (outputs is)

abbrev pub ReadsAll : List (List Token) → List (List Item) → Type 0
ReadsAll [] [] = Unit
ReadsAll (c ∷ cs) (is ∷ ls) = Reads c is × ReadsAll cs ls
ReadsAll _ _ = ⊥

Points-Reads : {c : List Token} {is : List Item} → Points c is → Reads c is
Points-Reads {c} {is} p =
    subst (λ s. Reads s is) (sym p.splits)
      (record {
        argv = get_argv-spelled p.rest p.at_end is;
        argc = get_argc-spelled p.rest p.at_end is;
        in_path = opened_paths-spelled p.rest p.at_end true false is ∙ ap some (files-inputs is);
        out_path = opened_paths-spelled p.rest p.at_end false true is ∙ ap some (files-outputs is);
      })

PointsAll-ReadsAll :
    (cs : List (List Token)) (ls : List (List Item)) → PointsAll cs ls → ReadsAll cs ls
PointsAll-ReadsAll [] [] p = tt
PointsAll-ReadsAll (c ∷ cs) (is ∷ ls) p = (Points-Reads p.0, PointsAll-ReadsAll cs ls p.1)
PointsAll-ReadsAll [] (is ∷ ls) p = elim p [ ]
PointsAll-ReadsAll (c ∷ cs) [] p = elim p [ ]

-- On a line that is accepted no scan reads through NULL, and each command runs with the words that
-- the grammar gives it, opens for input its input redirection, and for output its output one.
pub check_line-ReadsAll :
    {ts : List Token} {cs : List (List Token)} {ls : List (List Item)}
    → check_line ts ≡ ok cs
    → IsLine true ts ls
    → ReadsAll cs ls
check_line-ReadsAll {ts} {cs} {ls} e l =
    let a = IsLine-Accepted l in
    let same : ts ∷ a.later ≡ cs = let q = check_line-Accepted a in cc in
    subst (λ s. ReadsAll s ls) same (PointsAll-ReadsAll (ts ∷ a.later) ls a.points)

count_commands-split_from :
    (n : ℕ) (ts : List Token) {cs : List (List Token)}
    → split_from ts ≡ some cs
    → count_commands n ts ≡ n + length cs
unfolding count_commands split_from
count_commands-split_from n [] e =
    let z = ap (λ o. get_some o) e in omega (arith, ap (length {0}) z)
  where
    get_some : Option (List (List Token)) → List (List Token)
    get_some none = []
    get_some (some l) = l
count_commands-split_from n (t ∷ ts) {cs} e = elim (Option-cases (split_from ts)) [
  | inl q ↦ ground arith
  | inr (l, q) ↦
      ground (arith, count_commands-split_from n ts q, count_commands-split_from (n + 1) ts q)
]

-- `SplitInCommands` fills the array that it allocates, and no more: the pointers that it stores are
-- as many as the pipes plus one.
pub count_commands-split_in_commands :
    (ts : List Token) {cs : List (List Token)}
    → split_in_commands ts ≡ ok cs
    → count_commands 1 ts ≡ length cs
unfolding split_in_commands
count_commands-split_in_commands [] e = absurd (cc)
count_commands-split_in_commands (t ∷ ts) e = elim (Option-cases (split_from (t ∷ ts))) [
  | inl q ↦ ground arith
  | inr (l, q) ↦ ground (arith, count_commands-split_from 1 (t ∷ ts) q)
]
