-- ===== src/Shell/Lexer/Shape.antt =====
-- The loop ends, and what each of its tokens looks like.
use mathlib.Core.Option
use mephi_os_labs.Prelude.{
  ℕ, zero, suc, ◌-◌, ◌≤◌, ◌<◌, ◌≡◌, refl, ap, inl, inr, false, Option, none, some, [], ◌∷◌, ◌++◌,
  arith, if◌then◌else◌, length, take, All, Bool-cases, length-append, take-length_append,
}
use mephi_os_labs.Shell.Lexer.{
  Bytes, TokenType, word, infile, outfile, pipe, Token, Tokenizer, text, is_blank, skip_blanks,
  word_end, token_type, token_end, link, make_token, lex_token, lex_from, tokenizer_init,
}

pub length-skip_blanks : (s : Bytes) → length (skip_blanks s) ≤ length s
unfolding skip_blanks
length-skip_blanks [] = omega arith
length-skip_blanks (c ∷ cs) = ground (arith, length-skip_blanks cs)

-- The bytes that the word loop passes over.
abbrev pub word_part : Bytes → Bytes
word_part [] = []
word_part (c ∷ cs) = if is_blank c then [] else c ∷ word_part cs

pub word_part-append-word_end : (s : Bytes) → word_part s ++ word_end s ≡ s
unfolding word_end
word_part-append-word_end [] = refl
word_part-append-word_end (c ∷ cs) = ground (arith, word_part-append-word_end cs)

-- The bytes of a token behind its first one.
abbrev pub tail_part : TokenType → Bytes → Bytes
tail_part word next = word_part next
tail_part _ next = []

pub tail_part-append-token_end : (ty : TokenType) (s : Bytes) → tail_part ty s ++ token_end ty s ≡ s
unfolding token_end
tail_part-append-token_end word s = word_part-append-word_end s
tail_part-append-token_end _ s = refl

pub length-token_end : (ty : TokenType) (s : Bytes) → length (token_end ty s) ≤ length s
length-token_end ty s = omega (
  arith,
  ap length (tail_part-append-token_end ty s),
  length-append {0} (tail_part ty s) (token_end ty s),
)

take_tail : (w e s : Bytes) → w ++ e ≡ s → take (length s - length e) s ≡ w
take_tail w e s h =
    let m : length s - length e ≡ length w = omega (arith, ap length h, length-append {0} w e) in
    rw m (rw (← h) (take-length_append w e))

pub text-make_token :
    (c : ℕ) (next : Bytes) → text (make_token c next) ≡ c ∷ tail_part (token_type c) next
text-make_token c next =
    let e = token_end (token_type c) next in
    let m : suc (length next) - length e ≡ suc (length next - length e) =
      omega (arith, length-token_end (token_type c) next) in
    rw m (
      ap (◌∷◌ c) (
        take_tail (tail_part (token_type c) next) e next
          (tail_part-append-token_end (token_type c) next)))

-- The text that a token covers, beside its type.
pub record Lexeme : Type 0 where
  pub type : TokenType
  pub text : Bytes

abbrev pub lexeme : Token → Lexeme
lexeme t = record { type = t.type; text = text t }

-- A word is not empty, starts with no operator byte and holds no blank; an operator is its byte.
abbrev pub IsWord : Bytes → Type 0
IsWord [] = ⊥
IsWord (c ∷ cs) = (token_type c ≡ word) × All (λ b. is_blank b ≡ false) (c ∷ cs)

abbrev pub IsLexeme : TokenType → Bytes → Type 0
IsLexeme word s = IsWord s
IsLexeme infile s = s ≡ b'<' ∷ []
IsLexeme outfile s = s ≡ b'>' ∷ []
IsLexeme pipe s = s ≡ b'|' ∷ []

word_part-All : (s : Bytes) → All (λ b. is_blank b ≡ false) (word_part s)
word_part-All [] = tt
word_part-All (c ∷ cs) = elim (Bool-cases (is_blank c)) [
  | inl e ↦ rw e tt
  | inr e ↦ rw e (e, word_part-All cs)
]

lexeme_at :
    (ty : TokenType) (c : ℕ) (next : Bytes)
    → token_type c ≡ ty
    → is_blank c ≡ false
    → IsLexeme ty (c ∷ tail_part ty next)
lexeme_at word c next e b = (e, (b, word_part-All next))
lexeme_at infile c next e b = ground arith
lexeme_at outfile c next e b = ground arith
lexeme_at pipe c next e b = ground arith

make_token-IsLexeme :
    (c : ℕ) (next : Bytes) → is_blank c ≡ false → IsLexeme (token_type c) (text (make_token c next))
make_token-IsLexeme c next b = rw (text-make_token c next) (lexeme_at (token_type c) c next refl b)

-- Behind the skipped blanks stands no blank.
pub skip_blanks-head :
    (s : Bytes) {c : ℕ} {cs : Bytes} → skip_blanks s ≡ c ∷ cs → is_blank c ≡ false
unfolding skip_blanks
skip_blanks-head [] e = cc
skip_blanks-head (b ∷ s) {c} {cs} e = elim (Bool-cases (is_blank b)) [
  | inl h ↦ skip_blanks-head s (rw h at e)
  | inr h ↦ ground arith
]

abbrev pub TokensWell : Option Tokenizer → Type 0
TokensWell none = Unit
TokensWell (some ts) =
    (ts.token_count ≡ length ts.head) × All (λ t. IsLexeme t.type (text t)) ts.head

link-TokensWell :
    (t : Token) (o : Option Tokenizer)
    → IsLexeme t.type (text t)
    → TokensWell o
    → TokensWell (Option.map (link t) o)
link-TokensWell t none h w = tt
link-TokensWell t (some ts) h w = (omega arith, (h, w.1))

lex_token-TokensWell :
    (rounds : Bytes → Option Tokenizer)
    → ((s : Bytes) → TokensWell (rounds s))
    → (s : Bytes) → ((c : ℕ) (cs : Bytes) → s ≡ c ∷ cs → is_blank c ≡ false)
    → TokensWell (lex_token rounds s)
unfolding lex_token
lex_token-TokensWell rounds ih [] h = (refl, tt)
lex_token-TokensWell rounds ih (c ∷ next) h =
    link-TokensWell (make_token c next) (rounds (token_end (token_type c) next))
      (make_token-IsLexeme c next (h c next refl)) (ih (token_end (token_type c) next))

lex_from-TokensWell : (fuel : ℕ) (s : Bytes) → TokensWell (lex_from fuel s)
unfolding lex_from
lex_from-TokensWell zero s = tt
lex_from-TokensWell (suc fuel) s =
    lex_token-TokensWell (lex_from fuel) (lex_from-TokensWell fuel) (skip_blanks s)
      (λ c cs e. skip_blanks-head s e)

lex_token-total :
    (fuel : ℕ) (s : Bytes)
    → ((r : Bytes) → length r < fuel → (ts : Tokenizer) × (lex_from fuel r ≡ some ts))
    → length s ≤ fuel
    → (ts : Tokenizer) × (lex_token (lex_from fuel) s ≡ some ts)
unfolding lex_token
lex_token-total fuel [] ih h = (_, refl)
lex_token-total fuel (c ∷ next) ih h =
    let e = token_end (token_type c) next in
    let (ts, q) = ih e (omega (arith, length-token_end (token_type c) next)) in
    (link (make_token c next) ts, rw q)

lex_from-total :
    (fuel : ℕ) (s : Bytes) → length s < fuel → (ts : Tokenizer) × (lex_from fuel s ≡ some ts)
unfolding lex_from
lex_from-total zero s h = absurd (omega arith)
lex_from-total (suc fuel) s h =
    lex_token-total fuel (skip_blanks s) (lex_from-total fuel) (omega (arith, length-skip_blanks s))

-- `TokenizerInit` ends on every line: the fuel given suffices. Its tokens are counted right, each
-- word is a non-empty run of bytes that are no blanks, with no operator byte in front, and each
-- operator token is its one byte.
pub tokenizer_init-total :
    (line : Bytes)
    → (ts : Tokenizer) × (tokenizer_init line ≡ some ts)
      × (ts.token_count ≡ length ts.head)
      × All (λ t. IsLexeme t.type (text t)) ts.head
unfolding tokenizer_init
tokenizer_init-total line =
    let (ts, e) = lex_from-total (suc (length line)) line (omega arith) in
    let w : TokensWell (some ts) = rw e at (lex_from-TokensWell (suc (length line)) line) in
    (ts, e, w.0, w.1)
