-- ===== src/Shell/Lexer.antt =====
-- bash/pipe/tokenizer.h: `TokenizerInit`. A `char*` into the line is the part of the line that it
-- points at, up to the terminating NUL; a NULL `struct Token*` is the empty list.
pub mod Shape
pub mod Content
pub mod Printed
use mathlib.Core.Option
use mephi_os_labs.Prelude.{
  ℕ, zero, suc, ◌+◌, ◌-◌, Bool, ◌||◌, Option, none, some, List, [], ◌∷◌, ◌==◌, if◌then◌else◌,
  length, take,
}

abbrev pub Bytes : Type 0
Bytes = List ℕ

-- `enum TokenType`
pub data TokenType : Type 0 where
  word infile outfile pipe : TokenType

-- `struct Token`; `next` is the rest of the list that holds the token.
pub record Token : Type 0 where
  pub start : Bytes
  pub len : ℕ
  pub type : TokenType

pub record Tokenizer : Type 0 where
  pub token_count : ℕ
  pub head : List Token

-- The bytes that `strndup(token->start, ...)` copies, cut at `token->len`.
abbrev pub text : Token → Bytes
text t = take t.len t.start

abbrev pub is_blank : ℕ → Bool
is_blank c = c == b' ' || (c == b'\t' || c == b'\n')

-- `while (*next == ' ' || *next == '\t' || *next == '\n') ++next;`
unfoldable pub skip_blanks : Bytes → Bytes
skip_blanks [] = []
skip_blanks (c ∷ cs) = if is_blank c then skip_blanks cs else c ∷ cs

-- `while (*next != '\0' && *next != ' ' && *next != '\t' && *next != '\n') ++next;`
unfoldable pub word_end : Bytes → Bytes
word_end [] = []
word_end (c ∷ cs) = if is_blank c then c ∷ cs else word_end cs

-- `switch (*token->start)`
abbrev pub token_type : ℕ → TokenType
token_type c =
    if c == b'<' then infile else if c == b'>' then outfile else if c == b'|' then pipe else word

-- Where `next` stands behind the token that starts with the byte before `next`.
unfoldable pub token_end : TokenType → Bytes → Bytes
token_end word next = word_end next
token_end _ next = next

abbrev pub no_tokens : Tokenizer
no_tokens = record { token_count = 0; head = [] }

-- Linking a token into the list and counting it. The loop appends at `last_token`; here a token is
-- put before those that the later rounds append.
abbrev pub link : Token → Tokenizer → Tokenizer
link t ts = record { token_count = ts.token_count + 1; head = t ∷ ts.head }

abbrev pub make_token : ℕ → Bytes → Token
make_token c next = record {
  start = c ∷ next;
  len = suc (length next) - length (token_end (token_type c) next);
  type = token_type c;
}

-- One round of the loop behind the skipped blanks; the argument stands for the later rounds.
unfoldable pub lex_token : (Bytes → Option Tokenizer) → Bytes → Option Tokenizer
lex_token rounds [] = some no_tokens
lex_token rounds (c ∷ next) =
    Option.map (link (make_token c next)) (rounds (token_end (token_type c) next))

-- `for (;;) { ... }` with fuel.
unfoldable pub lex_from : ℕ → Bytes → Option Tokenizer
lex_from zero next = none
lex_from (suc fuel) next = lex_token (lex_from fuel) (skip_blanks next)

-- Each round but the last moves `next` past one byte or more.
unfoldable pub tokenizer_init : Bytes → Option Tokenizer
tokenizer_init line = lex_from (suc (length line)) line
