-- ===== src/Shell/Lexer/Printed.antt =====
-- A line that is written from lexemes is cut into them again.
use mephi_os_labs.Prelude.{
  ℕ, zero, suc, ◌≤◌, ◌<◌, ◌≡◌, refl, ap, ◌∙◌, false, some, List, [], ◌∷◌, ◌++◌, arith, length, All,
  length-append,
}
use mathlib.Core.List.{map}
use mephi_os_labs.Shell.Lexer.{
  Bytes, TokenType, word, infile, outfile, pipe, Tokenizer, text, is_blank, skip_blanks, word_end,
  token_type, token_end, link, make_token, lex_token, lex_from, tokenizer_init,
}
use mephi_os_labs.Shell.Lexer.Shape.{
  Lexeme, lexeme, IsLexeme, word_part, tail_part, text-make_token,
}

-- A blank behind each word; none is needed behind an operator.
abbrev pub written : TokenType → Bytes → Bytes → Bytes
written word s rest = s ++ (b' ' ∷ rest)
written _ s rest = s ++ rest

abbrev pub write_line : List Lexeme → Bytes
write_line [] = []
write_line (l ∷ ls) = written l.type l.text (write_line ls)

-- The lexer reads `ls` from `s`.
abbrev Lexes : ℕ → Bytes → List Lexeme → Type 0
Lexes fuel s ls = (ts : Tokenizer) × (lex_from fuel s ≡ some ts) × (map lexeme ts.head ≡ ls)

word_end-blank :
    (w r : Bytes)
    → All (λ b. is_blank b ≡ false) w
    → (word_end (w ++ (b' ' ∷ r)) ≡ b' ' ∷ r) × (word_part (w ++ (b' ' ∷ r)) ≡ w)
unfolding word_end
word_end-blank [] r h = (refl, refl)
word_end-blank (c ∷ w) r h =
    let (e, p) = word_end-blank w r h.1 in (rw h.0 e, rw h.0 (ap (◌∷◌ c) p))

skip_blanks-cons : (c : ℕ) (s : Bytes) → is_blank c ≡ false → skip_blanks (c ∷ s) ≡ c ∷ s
unfolding skip_blanks
skip_blanks-cons c s h = rw h

lex_from-blank : (fuel : ℕ) (s : Bytes) → lex_from fuel (b' ' ∷ s) ≡ lex_from fuel s
unfolding lex_from skip_blanks
lex_from-blank zero s = refl
lex_from-blank (suc fuel) s = refl

-- One token, read off the front of `c ∷ next`.
lex_from-token :
    (fuel c : ℕ) (next : Bytes) (l : Lexeme) (ls : List Lexeme)
    → is_blank c ≡ false
    → lexeme (make_token c next) ≡ l
    → Lexes fuel (token_end (token_type c) next) ls
    → Lexes (suc fuel) (c ∷ next) (l ∷ ls)
unfolding lex_from lex_token
lex_from-token fuel c next l ls b e (ts, p, q) =
    (link (make_token c next) ts, rw (skip_blanks-cons c next b) (rw p), λ i. e i ∷ q i)

lexeme-make_token :
    (ty : TokenType) (c : ℕ) (next s : Bytes)
    → token_type c ≡ ty
    → c ∷ tail_part ty next ≡ s
    → lexeme (make_token c next) ≡ record { type = ty; text = s }
lexeme-make_token ty c next s e h =
    let t : text (make_token c next) ≡ s = rw (text-make_token c next, e) h in
    λ i. record { type = e i; text = t i }

Lexes-written :
    (ty : TokenType) (s rest : Bytes) (ls : List Lexeme) (fuel : ℕ)
    → IsLexeme ty s
    → Lexes fuel rest ls
    → Lexes (suc fuel) (written ty s rest) (record { type = ty; text = s } ∷ ls)
unfolding token_end
Lexes-written word [] rest ls fuel h t = elim h [ ]
Lexes-written word (c ∷ w) rest ls fuel (e, (b, h)) (ts, p, q) =
    let (at_end, part) = word_end-blank w rest h in
    lex_from-token fuel c (w ++ (b' ' ∷ rest)) _ ls b
      (lexeme-make_token word c (w ++ (b' ' ∷ rest)) (c ∷ w) e (ap (◌∷◌ c) part))
      (ts, rw e (rw at_end (lex_from-blank fuel rest ∙ p)), q)
Lexes-written infile s rest ls fuel h t =
    rw h
      (lex_from-token fuel b'<' rest _ ls refl (lexeme-make_token infile b'<' rest _ refl refl) t)
Lexes-written outfile s rest ls fuel h t =
    rw h
      (lex_from-token fuel b'>' rest _ ls refl (lexeme-make_token outfile b'>' rest _ refl refl) t)
Lexes-written pipe s rest ls fuel h t =
    rw h (lex_from-token fuel b'|' rest _ ls refl (lexeme-make_token pipe b'|' rest _ refl refl) t)

length-written :
    (ty : TokenType) (s rest : Bytes)
    → IsLexeme ty s
    → suc (length rest) ≤ length (written ty s rest)
length-written word s rest h = omega (arith, length-append {0} s (b' ' ∷ rest))
length-written infile s rest h = rw h (omega arith)
length-written outfile s rest h = rw h (omega arith)
length-written pipe s rest h = rw h (omega arith)

Lexes-write_line :
    (ls : List Lexeme) (fuel : ℕ)
    → All (λ l. IsLexeme l.type l.text) ls
    → length (write_line ls) < fuel
    → Lexes fuel (write_line ls) ls
unfolding lex_from skip_blanks lex_token
Lexes-write_line ls zero h f = absurd (omega arith)
Lexes-write_line [] (suc fuel) h f = (_, refl, refl)
Lexes-write_line (l ∷ ls) (suc fuel) h f =
    Lexes-written l.type l.text (write_line ls) ls fuel h.0 (
      Lexes-write_line ls fuel h.1
        (omega (arith, length-written l.type l.text (write_line ls) h.0)))

-- Lexemes that are written with a blank behind each word, and none elsewhere, are what the
-- tokenizer reads back, with their types.
pub tokenizer_init-write_line :
    (ls : List Lexeme)
    → All (λ l. IsLexeme l.type l.text) ls
    → (ts : Tokenizer) × (tokenizer_init (write_line ls) ≡ some ts) × (map lexeme ts.head ≡ ls)
unfolding tokenizer_init
tokenizer_init-write_line ls h = Lexes-write_line ls (suc (length (write_line ls))) h (omega arith)
