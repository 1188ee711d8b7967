-- ===== src/Shell/Syntax.antt =====
-- bash/pipe/bash.h: `SplitInCommands`, the validators of the syntax, and the scans over the tokens
-- of one command. A `struct Token*` is the rest of the list from that token on, NULL is `[]`.
pub mod Grammar
pub mod Command
pub mod Pipeline
pub mod Argv
use mathlib.Core.Option
use mephi_os_labs.Prelude.{
  ℕ, ◌+◌, Bool, true, false, not, ◌||◌, Option, none, some, List, [], ◌∷◌, if◌then◌else◌,
}
use mephi_os_labs.Shell.Lexer.{Bytes, TokenType, word, infile, outfile, pipe, Token, text}

-- What a scan of the line comes to; `fault` is a read through NULL.
pub data Checked {ℓ} (A : Type ℓ) : Type ℓ where
  ok : A → Checked A
  syntax_error : Checked A
  fault : Checked A

abbrev pub is_pipe : TokenType → Bool
is_pipe pipe = true
is_pipe _ = false

abbrev pub is_word : TokenType → Bool
is_word word = true
is_word _ = false

-- `IsCommandEnd`
abbrev pub is_command_end : List Token → Bool
is_command_end [] = true
is_command_end (t ∷ ts) = is_pipe t.type

-- The first loop of `SplitInCommands`, which counts the pipes onto 1.
unfoldable pub count_commands : ℕ → List Token → ℕ
count_commands n [] = n
count_commands n (t ∷ ts) = count_commands (if is_pipe t.type then n + 1 else n) ts

-- Its second loop: the pointers that it stores behind `commands[0]`, or an error.
unfoldable pub split_from : List Token → Option (List (List Token))
split_from [] = some []
split_from (t ∷ ts) =
    if is_pipe t.type
    then if is_command_end ts then none else Option.map (◌∷◌ ts) (split_from ts)
    else split_from ts

abbrev with_first : List Token → Option (List (List Token)) → Checked (List (List Token))
with_first ts none = syntax_error
with_first ts (some cs) = ok (ts ∷ cs)

-- `SplitInCommands`
unfoldable pub split_in_commands : List Token → Checked (List (List Token))
split_in_commands [] = fault
split_in_commands (t ∷ ts) =
    if is_pipe t.type then syntax_error else with_first (t ∷ ts) (split_from (t ∷ ts))

-- The locals of `ValidateCommandSyntax`.
pub record Flags : Type 0 where
  pub syntax_error : Bool
  pub in_changed : Bool
  pub out_changed : Bool

abbrev pub starts_word : List Token → Bool
starts_word [] = false
starts_word (t ∷ ts) = is_word t.type

-- `ValidateIOSyntax`: the new value of `*syntax_error`; `*token_changed` becomes true.
unfoldable pub validate_io_syntax : List Token → Bool → Bool → Bool → Bool
validate_io_syntax next error changed permission =
    if not permission || (changed || not (starts_word next)) then true else error

-- The switch in `ValidateCommandSyntax`, with the tokens behind the one it looks at.
unfoldable pub validate_token : TokenType → List Token → Bool → Bool → Flags → Flags
unfolding validate_io_syntax
validate_token infile next first last f = record f {
  syntax_error = validate_io_syntax next f.syntax_error f.in_changed first;
  in_changed = true;
}
validate_token outfile next first last f = record f {
  syntax_error = validate_io_syntax next f.syntax_error f.out_changed last;
  out_changed = true;
}
validate_token _ next first last f = f

-- Its loop.
unfoldable pub validate_from : Bool → Bool → Flags → List Token → Flags
unfolding validate_token
validate_from first last f [] = f
validate_from first last f (t ∷ ts) =
    if is_pipe t.type || f.syntax_error
    then f
    else validate_from first last (validate_token t.type ts first last f) ts

abbrev pub no_flags : Flags
no_flags = record { syntax_error = false; in_changed = false; out_changed = false }

-- `ValidateCommandSyntax`, as `Exec` calls it with `syntax_error` false.
abbrev pub validate_command_syntax : List Token → Bool → Bool → Bool
validate_command_syntax command first last =
    (validate_from first last no_flags command).syntax_error

-- The loop of `Exec` over the commands. Its flag stays up once it is raised.
unfoldable pub validate_commands : Bool → List (List Token) → Bool
validate_commands first [] = false
validate_commands first (c ∷ []) = validate_command_syntax c first true
validate_commands first (c ∷ d ∷ cs) =
    validate_command_syntax c first false || validate_commands false (d ∷ cs)

abbrev accept : Checked (List (List Token)) → Checked (List (List Token))
accept (ok cs) = if validate_commands true cs then syntax_error else ok cs
accept syntax_error = syntax_error
accept fault = fault

-- `Exec` up to its second test of `syntax_error`.
unfoldable pub check_line : List Token → Checked (List (List Token))
check_line ts = accept (split_in_commands ts)

-- The strings that `GetArgv` copies; `none` is a read through `token->next` that is NULL.
-- `GetArgc` makes the same scan.
unfoldable pub get_argv : List Token → Option (List Bytes)
get_argv [] = some []
get_argv (t ∷ []) = elim t.type [ word ↦ some (text t ∷ []) | pipe ↦ some [] | _ ↦ none ]
get_argv (t ∷ u ∷ ts) = elim t.type [
  | word ↦ Option.map (◌∷◌ (text t)) (get_argv (u ∷ ts))
  | pipe ↦ some []
  | _ ↦ get_argv ts
]

unfoldable pub get_argc : List Token → Option ℕ
get_argc [] = some 0
get_argc (t ∷ []) = elim t.type [ word ↦ some 1 | pipe ↦ some 0 | _ ↦ none ]
get_argc (t ∷ u ∷ ts) = elim t.type [
  | word ↦ Option.map (λ n. n + 1) (get_argc (u ∷ ts))
  | pipe ↦ some 0
  | _ ↦ get_argc ts
]

-- The paths that `ValidateIOAndOpenFile` opens, in order; it skips the redirections that its flags
-- do not allow.
unfoldable pub opened_paths : Bool → Bool → List Token → Option (List Bytes)
opened_paths first last [] = some []
opened_paths first last (t ∷ []) = elim t.type [ word ↦ some [] | pipe ↦ some [] | _ ↦ none ]
opened_paths first last (t ∷ u ∷ ts) = elim t.type [
  | word ↦ opened_paths first last (u ∷ ts)
  | pipe ↦ some []
  | infile ↦ Option.map (λ ps. if first then text u ∷ ps else ps) (opened_paths first last ts)
  | outfile ↦ Option.map (λ ps. if last then text u ∷ ps else ps) (opened_paths first last ts)
]
