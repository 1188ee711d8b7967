-- ===== src/Shell/Tests.antt =====
-- Runs of the shell on one line, and the theorems about it at that line.
use Prim.Native.Char.{code}
use Prim.Native.String.{String}
use mathlib.Core.List.{map}
use mephi_os_labs.Prelude.{
  ℕ, zero, suc, ◌+◌, ◌<◌, ◌≡◌, refl, ◌≢◌, ◌↔◌, inl, inr, true, Option, none, some, List, [], ◌∷◌,
  arith, ltb, if◌then◌else◌, Option-cases, length, All,
}
use mephi_os_labs.Shell.Lexer.{
  Bytes, TokenType, word, infile, pipe, Token, Tokenizer, text, tokenizer_init, lex_from, lex_token,
  skip_blanks, token_end, word_end,
}
use mephi_os_labs.Shell.Lexer.Shape.{Lexeme, lexeme, IsLexeme, tokenizer_init-total}
use mephi_os_labs.Shell.Lexer.Content.{texts, non_blanks, texts-tokenizer_init}
use mephi_os_labs.Shell.Lexer.Printed.{write_line, tokenizer_init-write_line}
use mephi_os_labs.Shell.Syntax.{
  ok, syntax_error, split_from, validate_commands, validate_from, split_in_commands, check_line,
}
use mephi_os_labs.Shell.Syntax.Grammar.{Item, arg, input, IsLine, last_command, piped}
use mephi_os_labs.Shell.Syntax.Pipeline.{check_line_iff}
use mephi_os_labs.Shell.Syntax.Argv.{ReadsAll, check_line-ReadsAll}
use mephi_os_labs.Shell.Exec.{inherited, read_end, write_end, Table, Kernel, exec, exec_from}
use mephi_os_labs.Shell.Exec.Line.{Children, exec_wires, exec_leaks}

abbrev codes : String → Bytes
codes String.[] = []
codes (String.◌∷◌ c s) = code c ∷ codes s

abbrev tok : String → TokenType → Token
tok s ty = record { start = codes s; len = length (codes s); type = ty }

abbrev t_cat : Token
t_cat = tok "cat" word

abbrev t_in : Token
t_in = tok "<" infile

abbrev t_file : Token
t_file = tok "f" word

abbrev t_pipe : Token
t_pipe = tok "|" pipe

abbrev t_wc : Token
t_wc = tok "wc" word

-- `cat <f |wc`
abbrev line : Bytes
line = codes "cat <f |wc\n"

abbrev tokens : List Token
tokens = t_cat ∷ t_in ∷ t_file ∷ t_pipe ∷ t_wc ∷ []

abbrev lexemes : List Lexeme
lexemes = map lexeme tokens

abbrev read_line : Option Tokenizer → List Lexeme
read_line none = []
read_line (some ts) = map lexeme ts.head

tokenizer_init-line : read_line (tokenizer_init line) ≡ lexemes
unfolding tokenizer_init lex_from lex_token skip_blanks token_end word_end
tokenizer_init-line = refl

tokenizer_init-total_example :
    (ts : Tokenizer) × (tokenizer_init line ≡ some ts)
    × (ts.token_count ≡ length ts.head)
    × All (λ t. IsLexeme t.type (text t)) ts.head
tokenizer_init-total_example = tokenizer_init-total line

texts-tokenizer_init_example : texts (tokenizer_init-total line).0.head ≡ non_blanks line
texts-tokenizer_init_example = texts-tokenizer_init line (tokenizer_init-total line).1

lexemes-IsLexeme : All (λ l. IsLexeme l.type l.text) lexemes
lexemes-IsLexeme = (
  (refl, (refl, (refl, (refl, tt)))),
  (refl, ((refl, (refl, tt)), (refl, ((refl, (refl, (refl, tt))), tt)))),
)

tokenizer_init-write_line_example :
    (ts : Tokenizer) × (tokenizer_init (write_line lexemes) ≡ some ts)
    × (map lexeme ts.head ≡ lexemes)
tokenizer_init-write_line_example = tokenizer_init-write_line lexemes lexemes-IsLexeme

abbrev cat_items : List Item
cat_items = arg t_cat refl ∷ input t_in t_file refl refl ∷ []

abbrev wc_items : List Item
wc_items = arg t_wc refl ∷ []

tokens-IsLine : IsLine true tokens (cat_items ∷ wc_items ∷ [])
tokens-IsLine =
    piped cat_items t_pipe (t_wc ∷ [])
      (record { has_item = λ e. cc; few_inputs = omega arith; few_outputs = omega arith }) refl refl
      (last_command wc_items
        (record { has_item = λ e. cc; few_inputs = omega arith; few_outputs = omega arith }) refl)

check_line-tokens : check_line tokens ≡ ok (tokens ∷ (t_wc ∷ []) ∷ [])
unfolding check_line split_in_commands split_from validate_commands validate_from
check_line-tokens = refl

-- Two input redirections in one command, and one behind a pipe.
check_line_rejects :
    (check_line (t_cat ∷ t_in ∷ t_file ∷ t_in ∷ t_file ∷ []) ≡ syntax_error)
    × (check_line (t_cat ∷ t_pipe ∷ t_wc ∷ t_in ∷ t_file ∷ []) ≡ syntax_error)
    × (check_line (t_cat ∷ t_pipe ∷ []) ≡ syntax_error)
unfolding check_line split_in_commands split_from validate_commands validate_from
check_line_rejects = (refl, refl, refl)

check_line_iff_example :
    ((cs : List (List Token)) × (check_line tokens ≡ ok cs))
    ↔ ((ls : List (List Item)) × IsLine true tokens ls)
check_line_iff_example = check_line_iff tokens

check_line-ReadsAll_example : ReadsAll (tokens ∷ (t_wc ∷ []) ∷ []) (cat_items ∷ wc_items ∷ [])
check_line-ReadsAll_example = check_line-ReadsAll check_line-tokens tokens-IsLine

-- The lowest of the 64 descriptors that is free.
first_free : ℕ → ℕ → Table → Option ℕ
first_free zero fd t = none
first_free (suc n) fd t = elim (t fd) [ none ↦ some fd | some _ ↦ first_free n (fd + 1) t ]

first_free-none : (n fd : ℕ) (t : Table) (x : ℕ) → first_free n fd t ≡ some x → t x ≡ none
unfolding first_free
first_free-none zero fd t x e = absurd (cc)
first_free-none (suc n) fd t x e = elim (Option-cases (t fd)) [
  | inl q ↦ ground arith
  | inr (f, q) ↦ first_free-none n (fd + 1) t x (ground arith)
]

abbrev kernel : Kernel
kernel = record { alloc = first_free 64 0; opens = λ p w. true; starts = λ argv. true }

-- The three standard descriptors.
abbrev standard : Table
standard x = if ltb x 3 then some (inherited x) else none

standard_no_writes : (x j : ℕ) → standard x ≢ some (write_end j)
standard_no_writes x j e = ground arith

exec_wires_example :
    Children
      (exec kernel (λ i. true) 0 standard (tokens ∷ (t_wc ∷ []) ∷ [])).complete
      true
      0
      (inherited 0)
      (inherited 1)
      (inherited 0)
      (cat_items ∷ wc_items ∷ [])
      (exec kernel (λ i. true) 0 standard (tokens ∷ (t_wc ∷ []) ∷ [])).children
    × ((x j : ℕ)
        → (exec kernel (λ i. true) 0 standard (tokens ∷ (t_wc ∷ []) ∷ [])).table x
          ≢ some (write_end j))
exec_wires_example =
    exec_wires kernel (first_free-none 64 0) (λ i. true) 0 standard (inherited 0) (inherited 1) refl
      refl standard_no_writes check_line-tokens tokens-IsLine

exec_leaks_example :
    (x : ℕ) × ((exec kernel (λ i. true) 0 standard (tokens ∷ (t_wc ∷ []) ∷ [])).table x
      ≡ some (read_end 1))
exec_leaks_example =
    exec_leaks kernel (first_free-none 64 0) (λ i. true) 0 1 standard (inherited 0) (inherited 1)
      refl refl standard_no_writes check_line-tokens tokens-IsLine (omega arith) two_children
  where
    two_children :
        1 < 0 + length (exec kernel (λ i. true) 0 standard (tokens ∷ (t_wc ∷ []) ∷ [])).children
    two_children = unfold exec_from first_free in omega arith
