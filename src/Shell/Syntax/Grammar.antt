-- ===== src/Shell/Syntax/Grammar.antt =====
-- The grammar of a line, with no reference to how the shell scans it: commands with a pipe between
-- two of them, and each command a list of words and redirections.
use mephi_os_labs.Prelude.{
  ℕ, ◌≤◌, ◌≡◌, ◌≢◌, Bool, true, false, List, [], ◌∷◌, if◌then◌else◌, length,
}
use mephi_os_labs.Shell.Lexer.{Bytes, word, infile, outfile, pipe, Token, text}

pub data Item : Type 0 where
  arg : (w : Token) → w.type ≡ word → Item
  input : (op file : Token) → op.type ≡ infile → file.type ≡ word → Item
  output : (op file : Token) → op.type ≡ outfile → file.type ≡ word → Item

-- The tokens of some items, with `rest` behind them.
abbrev pub spelled : List Item → List Token → List Token
spelled [] rest = rest
spelled (arg w _ ∷ is) rest = w ∷ spelled is rest
spelled (input op file _ _ ∷ is) rest = op ∷ file ∷ spelled is rest
spelled (output op file _ _ ∷ is) rest = op ∷ file ∷ spelled is rest

abbrev pub words : List Item → List Bytes
words [] = []
words (arg w _ ∷ is) = text w ∷ words is
words (_ ∷ is) = words is

abbrev pub inputs : List Item → List Bytes
inputs [] = []
inputs (input op file _ _ ∷ is) = text file ∷ inputs is
inputs (_ ∷ is) = inputs is

abbrev pub outputs : List Item → List Bytes
outputs [] = []
outputs (output op file _ _ ∷ is) = text file ∷ outputs is
outputs (_ ∷ is) = outputs is

abbrev pub at_most_one : Bool → ℕ
at_most_one b = if b then 1 else 0

-- A command has an item, one input redirection at most if it is the first of its line and none
-- else, and one output redirection at most if it is the last and none else.
pub record IsCommand (first last : Bool) (is : List Item) : Type 0 where
  pub has_item : is ≢ []
  pub few_inputs : length (inputs is) ≤ at_most_one first
  pub few_outputs : length (outputs is) ≤ at_most_one last

-- `IsLine first tokens commands`; `first` says whether the first of these commands opens the line.
pub data IsLine : Bool → List Token → List (List Item) → Type 0 where
  last_command :
      {first : Bool} {ts : List Token} (is : List Item)
      → IsCommand first true is
      → ts ≡ spelled is []
      → IsLine first ts (is ∷ [])
  piped :
      {first : Bool} {ts : List Token} {cs : List (List Item)} (is : List Item) (p : Token)
      (rest : List Token)
      → IsCommand first false is
      → p.type ≡ pipe
      → ts ≡ spelled is (p ∷ rest)
      → IsLine false rest cs
      → IsLine first ts (is ∷ cs)
