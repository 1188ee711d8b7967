-- ===== src/Shell/Syntax/Command.antt =====
-- What `ValidateCommandSyntax` lets pass is a command, and it lets every command pass.
use mephi_os_labs.Prelude.{
  ◌≤◌, ◌≡◌, refl, ap, Bool, true, false, not, ◌&&◌, List, [], ◌∷◌, arith, length,
}
use mephi_os_labs.Shell.Lexer.{TokenType, word, infile, outfile, pipe, Token}
use mephi_os_labs.Shell.Syntax.{is_word, is_command_end, Flags, starts_word, validate_from}
use mephi_os_labs.Shell.Syntax.Grammar.{
  Item, arg, input, output, spelled, inputs, outputs, at_most_one,
}

abbrev pub flags : Bool → Bool → Flags
flags inn out = record { syntax_error = false; in_changed = inn; out_changed = out }

-- The scan from `ts` on raises no error.
abbrev pub Passes : Bool → Bool → Bool → Bool → List Token → Type 0
Passes first last inn out ts = (validate_from first last (flags inn out) ts).syntax_error ≡ false

module _ (first last : Bool) where
  error_stays :
      (f : Flags) (ts : List Token)
      → f.syntax_error ≡ true
      → (validate_from first last f ts).syntax_error ≡ true
  unfolding validate_from
  error_stays f [] h = h
  error_stays f (t ∷ ts) h = ground (arith, error_stays f ts h)

  Passes-word :
      (inn out : Bool) (t : Token) (ts : List Token)
      → t.type ≡ word
      → validate_from first last (flags inn out) (t ∷ ts)
        ≡ validate_from first last (flags inn out) ts
  unfolding validate_from
  Passes-word inn out t ts e = rw e

  Passes-input :
      (inn out : Bool) (t : Token) (ts : List Token)
      → t.type ≡ infile
      → Passes first last inn out (t ∷ ts)
      → (first ≡ true) × (inn ≡ false) × (starts_word ts ≡ true) × Passes first last true out ts
  unfolding validate_from
  Passes-input inn out t ts e h =
      ground (
        arith,
        error_stays (record { syntax_error = true; in_changed = true; out_changed = out }) ts,
      )

  Passes-output :
      (inn out : Bool) (t : Token) (ts : List Token)
      → t.type ≡ outfile
      → Passes first last inn out (t ∷ ts)
      → (last ≡ true) × (out ≡ false) × (starts_word ts ≡ true) × Passes first last inn true ts
  unfolding validate_from
  Passes-output inn out t ts e h =
      ground (
        arith,
        error_stays (record { syntax_error = true; in_changed = inn; out_changed = true }) ts,
      )

  -- The items up to the end of the command.
  pub record Parsed (inn out : Bool) (ts : List Token) : Type 0 where
    pub is : List Item
    pub rest : List Token
    pub splits : ts ≡ spelled is rest
    pub at_end : is_command_end rest ≡ true
    pub few_inputs : length (inputs is) ≤ at_most_one (first && not inn)
    pub few_outputs : length (outputs is) ≤ at_most_one (last && not out)

  Parsed-nothing : (inn out : Bool) (ts : List Token) → is_command_end ts ≡ true → Parsed inn out ts
  Parsed-nothing inn out ts h = record {
    is = [];
    rest = ts;
    splits = refl;
    at_end = h;
    few_inputs = omega arith;
    few_outputs = omega arith;
  }

  Parsed-word :
      (inn out : Bool) (t : Token) (ts : List Token)
      → t.type ≡ word
      → Parsed inn out ts
      → Parsed inn out (t ∷ ts)
  Parsed-word inn out t ts e p = record {
    is = arg t e ∷ p.is;
    rest = p.rest;
    splits = ap (◌∷◌ t) p.splits;
    at_end = p.at_end;
    few_inputs = p.few_inputs;
    few_outputs = p.few_outputs;
  }

  Parsed-input :
      (out : Bool) (t u : Token) (ts : List Token)
      → first ≡ true
      → t.type ≡ infile
      → u.type ≡ word
      → Parsed true out ts
      → Parsed false out (t ∷ u ∷ ts)
  Parsed-input out t u ts f e w p = record {
    is = input t u e w ∷ p.is;
    rest = p.rest;
    splits = ap (λ s. t ∷ u ∷ s) p.splits;
    at_end = p.at_end;
    few_inputs = rw f (let q = p.few_inputs in ground arith);
    few_outputs = p.few_outputs;
  }

  Parsed-output :
      (inn : Bool) (t u : Token) (ts : List Token)
      → last ≡ true
      → t.type ≡ outfile
      → u.type ≡ word
      → Parsed inn true ts
      → Parsed inn false (t ∷ u ∷ ts)
  Parsed-output inn t u ts f e w p = record {
    is = output t u e w ∷ p.is;
    rest = p.rest;
    splits = ap (λ s. t ∷ u ∷ s) p.splits;
    at_end = p.at_end;
    few_inputs = p.few_inputs;
    few_outputs = rw f (let q = p.few_outputs in ground arith);
  }

pub data Kind (ty : TokenType) : Type 0 where
  of_word : ty ≡ word → Kind ty
  of_in : ty ≡ infile → Kind ty
  of_out : ty ≡ outfile → Kind ty
  of_pipe : ty ≡ pipe → Kind ty

pub kind : (ty : TokenType) → Kind ty
kind word = of_word refl
kind infile = of_in refl
kind outfile = of_out refl
kind pipe = of_pipe refl

is_word→word : (ty : TokenType) → is_word ty ≡ true → ty ≡ word
is_word→word ty h = ground arith

module _ (first last : Bool) where
  pub parse :
      (inn out : Bool) (ts : List Token)
      → Passes first last inn out ts
      → Parsed first last inn out ts
  parse inn out [] h = Parsed-nothing first last inn out [] refl
  parse inn out (t ∷ []) h = elim (kind t.type) [
    | of_word e ↦ Parsed-word first last inn out t [] e (Parsed-nothing first last inn out [] refl)
    | of_in e ↦ let q = Passes-input first last inn out t [] e h in cc (q.2)
    | of_out e ↦ let q = Passes-output first last inn out t [] e h in cc (q.2)
    | of_pipe e ↦ Parsed-nothing first last inn out (t ∷ []) (rw e)
  ]
  parse inn out (t ∷ u ∷ ts) h = elim (kind t.type) [
    | of_word e ↦
        Parsed-word first last inn out t (u ∷ ts) e
          (parse inn out (u ∷ ts) (rw (Passes-word first last inn out t (u ∷ ts) e) at h))
    | of_in e ↦
        let (f, i, w, later) = Passes-input first last inn out t (u ∷ ts) e h in
        let uw = is_word→word u.type w in
        rw i (
          Parsed-input first last out t u ts f e uw
            (parse true out ts (rw (Passes-word first last true out u ts uw) at later)))
    | of_out e ↦
        let (f, o, w, later) = Passes-output first last inn out t (u ∷ ts) e h in
        let uw = is_word→word u.type w in
        rw o (
          Parsed-output first last inn t u ts f e uw
            (parse inn true ts (rw (Passes-word first last inn true u ts uw) at later)))
    | of_pipe e ↦ Parsed-nothing first last inn out (t ∷ u ∷ ts) (rw e)
  ]

  Passes-nothing :
      (inn out : Bool) (rest : List Token)
      → is_command_end rest ≡ true
      → Passes first last inn out rest
  unfolding validate_from
  Passes-nothing inn out [] h = refl
  Passes-nothing inn out (t ∷ ts) h = rw h

  -- A command passes, with any end behind it.
  pub spelled-Passes :
      (inn out : Bool) (is : List Item) (rest : List Token)
      → length (inputs is) ≤ at_most_one (first && not inn)
      → length (outputs is) ≤ at_most_one (last && not out)
      → is_command_end rest ≡ true
      → Passes first last inn out (spelled is rest)
  unfolding validate_from
  spelled-Passes inn out [] rest i o h = Passes-nothing inn out rest h
  spelled-Passes inn out (arg w e ∷ is) rest i o h = rw e (spelled-Passes inn out is rest i o h)
  spelled-Passes inn out (input op file e w ∷ is) rest i o h =
      let (f, n) : (first ≡ true) × (inn ≡ false) = (ground arith, ground arith) in
      let later = spelled-Passes true out is rest (ground arith) o h in rw (e, f, n, w) later
  spelled-Passes inn out (output op file e w ∷ is) rest i o h =
      let (f, n) : (last ≡ true) × (out ≡ false) = (ground arith, ground arith) in
      let later = spelled-Passes inn true is rest i (ground arith) h in rw (e, f, n, w) later
