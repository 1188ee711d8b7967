-- ===== src/Shell/Lexer/Content.antt =====
-- The tokens of a line hold all its bytes but the blanks, in order.
use mathlib.Core.Option
use mephi_os_labs.Prelude.{
  ℕ, zero, suc, ◌≡◌, refl, ap, sym, ◌∙◌, false, Option, none, some, List, [], ◌∷◌, ◌++◌, arith,
  if◌then◌else◌, length,
}
use mephi_os_labs.Shell.Lexer.{
  Bytes, TokenType, word, Token, Tokenizer, text, is_blank, skip_blanks, word_end, token_type,
  token_end, link, make_token, lex_token, lex_from, tokenizer_init,
}
use mephi_os_labs.Shell.Lexer.Shape.{word_part, tail_part, text-make_token, skip_blanks-head}

-- The bytes of a line that are no blanks.
abbrev pub non_blanks : Bytes → Bytes
non_blanks [] = []
non_blanks (c ∷ cs) = if is_blank c then non_blanks cs else c ∷ non_blanks cs

-- The texts of the tokens, one behind the other.
abbrev pub texts : List Token → Bytes
texts [] = []
texts (t ∷ ts) = text t ++ texts ts

non_blanks-skip_blanks : (s : Bytes) → non_blanks (skip_blanks s) ≡ non_blanks s
unfolding skip_blanks
non_blanks-skip_blanks [] = refl
non_blanks-skip_blanks (c ∷ cs) = ground (arith, non_blanks-skip_blanks cs)

non_blanks-word_end : (s : Bytes) → non_blanks s ≡ word_part s ++ non_blanks (word_end s)
unfolding word_end
non_blanks-word_end [] = refl
non_blanks-word_end (c ∷ cs) = ground (arith, non_blanks-word_end cs)

non_blanks-token_end :
    (ty : TokenType) (s : Bytes) → non_blanks s ≡ tail_part ty s ++ non_blanks (token_end ty s)
unfolding token_end
non_blanks-token_end word s = non_blanks-word_end s
non_blanks-token_end _ s = refl

abbrev Covers : Bytes → Option Tokenizer → Type 0
Covers s none = Unit
Covers s (some ts) = texts ts.head ≡ non_blanks s

link-Covers :
    (c : ℕ) (next : Bytes) (o : Option Tokenizer)
    → is_blank c ≡ false
    → Covers (token_end (token_type c) next) o
    → Covers (c ∷ next) (Option.map (link (make_token c next)) o)
link-Covers c next none b h = tt
link-Covers c next (some ts) b h =
    rw (text-make_token c next, h, b) (ap (◌∷◌ c) (sym (non_blanks-token_end (token_type c) next)))

lex_token-Covers :
    (rounds : Bytes → Option Tokenizer)
    → ((s : Bytes) → Covers s (rounds s))
    → (s : Bytes) → ((c : ℕ) (cs : Bytes) → s ≡ c ∷ cs → is_blank c ≡ false)
    → Covers s (lex_token rounds s)
unfolding lex_token
lex_token-Covers rounds ih [] h = refl
lex_token-Covers rounds ih (c ∷ next) h =
    link-Covers c next (rounds (token_end (token_type c) next)) (h c next refl)
      (ih (token_end (token_type c) next))

Covers-skip_blanks : (s : Bytes) (o : Option Tokenizer) → Covers (skip_blanks s) o → Covers s o
Covers-skip_blanks s none h = tt
Covers-skip_blanks s (some ts) h = h ∙ non_blanks-skip_blanks s

lex_from-Covers : (fuel : ℕ) (s : Bytes) → Covers s (lex_from fuel s)
unfolding lex_from
lex_from-Covers zero s = tt
lex_from-Covers (suc fuel) s = Covers-skip_blanks s (lex_token (lex_from fuel) (skip_blanks s)) (
    lex_token-Covers (lex_from fuel) (lex_from-Covers fuel) (skip_blanks s)
      (λ c cs e. skip_blanks-head s e))

-- No byte is lost or made up: the texts of the tokens, put together, are the line without its
-- blanks.
pub texts-tokenizer_init :
    (line : Bytes) {ts : Tokenizer}
    → tokenizer_init line ≡ some ts
    → texts ts.head ≡ non_blanks line
unfolding tokenizer_init
texts-tokenizer_init line e = rw e at (lex_from-Covers (suc (length line)) line)
