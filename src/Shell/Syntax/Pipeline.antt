-- ===== src/Shell/Syntax/Pipeline.antt =====
-- The lines that `Exec` goes on with are those of the grammar, and its scans of their commands read
-- the words and the redirections.
use mephi_os_labs.Prelude.{
  ◌≡◌, refl, ap, sym, ◌∙◌, ◌≢◌, ◌↔◌, inl, inr, Bool, true, false, some, List, [], ◌∷◌, arith,
  Bool-cases, Option-cases, List-cases,
}
use mathlib.Core.Path.{subst}
use mephi_os_labs.Shell.Lexer.{TokenType, pipe, Token}
use mephi_os_labs.Shell.Syntax.{
  is_pipe, is_command_end, ok, split_from, split_in_commands, validate_commands, check_line,
}
use mephi_os_labs.Shell.Syntax.Grammar.{
  Item, arg, input, output, spelled, IsCommand, IsLine, last_command, piped,
}
use mephi_os_labs.Shell.Syntax.Command.{Parsed, Passes, parse, spelled-Passes}

split_from-spelled :
    (is : List Item) (rest : List Token) → split_from (spelled is rest) ≡ split_from rest
unfolding split_from
split_from-spelled [] rest = refl
split_from-spelled (arg w e ∷ is) rest = rw e (split_from-spelled is rest)
split_from-spelled (input op f e w ∷ is) rest = rw (e, w) (split_from-spelled is rest)
split_from-spelled (output op f e w ∷ is) rest = rw (e, w) (split_from-spelled is rest)

pub record AtPipe (r : List Token) (cs : List (List Token)) : Type 0 where
  pub open_end : is_command_end r ≡ false
  pub later : List (List Token)
  pub splits : cs ≡ r ∷ later
  pub continues : split_from r ≡ some later

split_from-pipe :
    (p : Token) (r : List Token) {cs : List (List Token)}
    → is_pipe p.type ≡ true
    → split_from (p ∷ r) ≡ some cs
    → AtPipe r cs
unfolding split_from
split_from-pipe p r {cs} h e = elim (Bool-cases (is_command_end r)) [
  | inl b ↦ ground arith
  | inr b ↦ elim (Option-cases (split_from r)) [
    | inl n ↦ ground arith
    | inr (l, n) ↦ record { open_end = b; later = l; splits = ground arith; continues = n }
  ]
]

IsCommand-parse :
    {first last : Bool} {ts : List Token} (p : Parsed first last false false ts)
    → is_command_end ts ≡ false
    → IsCommand first last p.is
IsCommand-parse {first} {last} {ts} p o = record {
  has_item = λ e. cc (p.at_end, o, p.splits ∙ ap (λ i. spelled i p.rest) e);
  few_inputs = let q = p.few_inputs in ground arith;
  few_outputs = let q = p.few_outputs in ground arith;
}

is_pipe→pipe : (ty : TokenType) → is_pipe ty ≡ true → ty ≡ pipe
is_pipe→pipe ty h = ground arith

-- What follows the command that `ts` starts with.
behind :
    {first last : Bool} {ts : List Token} {cs : List (List Token)}
    (p : Parsed first last false false ts)
    → split_from ts ≡ some cs
    → split_from p.rest ≡ some cs
behind p s = sym (split_from-spelled p.is p.rest) ∙ ap split_from (sym p.splits) ∙ s

-- A pipe and more commands follow.
IsLine-more :
    {first : Bool} {ts c : List Token} {cs : List (List Token)}
    (p : Parsed first false false false ts)
    → is_command_end ts ≡ false
    → split_from ts ≡ some (c ∷ cs)
    → (split_from c ≡ some cs
        → is_command_end c ≡ false
        → (ls : List (List Item)) × IsLine false c ls)
    → (ls : List (List Item)) × IsLine first ts ls
IsLine-more {c} {cs} p o s rec = elim (List-cases p.rest) [
  | inl e ↦ absurd (unfold split_from in cc (behind p s, ap split_from e))
  | inr (q, r, e) ↦
      let h : is_pipe q.type ≡ true = rw e at p.at_end in
      let a : AtPipe r (c ∷ cs) = split_from-pipe q r h (ap split_from (sym e) ∙ behind p s) in
      let same : r ≡ c = let e' = a.splits in ground arith in
      let rest : a.later ≡ cs = let e' = a.splits in ground arith in
      let later =
        rec (ap split_from (sym same) ∙ a.continues ∙ ap some rest)
          (ap is_command_end (sym same) ∙ a.open_end) in
      (
        p.is ∷ later.0,
        piped p.is q r (IsCommand-parse p o) (is_pipe→pipe q.type h)
            (p.splits ∙ ap (spelled p.is) e)
            (subst (λ x. IsLine false x later.0) (sym same) later.1),
      )
]

IsLine-end :
    {first : Bool} {ts : List Token} (p : Parsed first true false false ts)
    → is_command_end ts ≡ false
    → split_from ts ≡ some []
    → (ls : List (List Item)) × IsLine first ts ls
IsLine-end p o s = elim (List-cases p.rest) [
  | inl e ↦ (p.is ∷ [], last_command p.is (IsCommand-parse p o) (p.splits ∙ ap (spelled p.is) e))
  | inr (q, r, e) ↦
      let a : AtPipe r [] =
        split_from-pipe q r (rw e at p.at_end) (ap split_from (sym e) ∙ behind p s) in
      absurd (cc (a.splits))
]

IsLine-of :
    (first : Bool) (ts : List Token) (cs : List (List Token))
    → split_from ts ≡ some cs
    → validate_commands first (ts ∷ cs) ≡ false
    → is_command_end ts ≡ false
    → (ls : List (List Item)) × IsLine first ts ls
unfolding validate_commands
IsLine-of first ts [] s v o = IsLine-end (parse first true false false ts v) o s
IsLine-of first ts (c ∷ cs) s v o =
    IsLine-more (parse first false false false ts (ground arith)) o s
      (λ s' o'. IsLine-of false c cs s' (ground arith) o')

-- A pointer of `commands` and the command that stands there.
pub record Points (c : List Token) (is : List Item) : Type 0 where
  pub rest : List Token
  pub splits : c ≡ spelled is rest
  pub at_end : is_command_end rest ≡ true

abbrev pub PointsAll : List (List Token) → List (List Item) → Type 0
PointsAll [] [] = Unit
PointsAll (c ∷ cs) (is ∷ ls) = Points c is × PointsAll cs ls
PointsAll _ _ = ⊥

spelled_open :
    (is : List Item) (rest : List Token) → is ≢ [] → is_command_end (spelled is rest) ≡ false
spelled_open [] rest h = absurd (h refl)
spelled_open (arg w e ∷ is) rest h = rw e
spelled_open (input op f e w ∷ is) rest h = rw e
spelled_open (output op f e w ∷ is) rest h = rw e

pub record Accepted (first : Bool) (ts : List Token) (ls : List (List Item)) : Type 0 where
  pub later : List (List Token)
  pub splits : split_from ts ≡ some later
  pub valid : validate_commands first (ts ∷ later) ≡ false
  pub starts : is_command_end ts ≡ false
  pub points : PointsAll (ts ∷ later) ls

IsCommand-Passes :
    {first last : Bool} (is : List Item) (rest : List Token)
    → IsCommand first last is
    → is_command_end rest ≡ true
    → Passes first last false false (spelled is rest)
IsCommand-Passes {first} {last} is rest c h =
    spelled-Passes first last false false is rest (let q = c.few_inputs in ground arith)
      (let q = c.few_outputs in ground arith) h

Accepted-last :
    {first : Bool} (is : List Item)
    → IsCommand first true is
    → Accepted first (spelled is []) (is ∷ [])
unfolding validate_commands
Accepted-last is c = record {
  later = [];
  splits = split_from-spelled is [] ∙ unfold split_from in refl;
  valid = IsCommand-Passes is [] c refl;
  starts = spelled_open is [] c.has_item;
  points = (record { rest = []; splits = refl; at_end = refl }, tt);
}

Accepted-more :
    {first : Bool} {ls : List (List Item)} (is : List Item) (p : Token) (rest : List Token)
    → IsCommand first false is
    → p.type ≡ pipe
    → Accepted false rest ls
    → Accepted first (spelled is (p ∷ rest)) (is ∷ ls)
unfolding validate_commands
Accepted-more {first} is p rest c e a = record {
  later = rest ∷ a.later;
  splits = split_from-spelled is (p ∷ rest) ∙ after;
  valid = rw (IsCommand-Passes {first = first} {last = false} is (p ∷ rest) c (rw e)) a.valid;
  starts = spelled_open is (p ∷ rest) c.has_item;
  points = (record { rest = p ∷ rest; splits = refl; at_end = rw e }, a.points);
}
  where
    after : split_from (p ∷ rest) ≡ some (rest ∷ a.later)
    after = unfold split_from in rw (e, a.starts) (rw a.splits)

pub IsLine-Accepted :
    {first : Bool} {ts : List Token} {ls : List (List Item)}
    → IsLine first ts ls
    → Accepted first ts ls
IsLine-Accepted {first} (last_command is c e) =
    subst (λ s. Accepted first s (is ∷ [])) (sym e) (Accepted-last is c)
IsLine-Accepted {first} (piped {cs} is p rest c t e l) =
    subst (λ s. Accepted first s (is ∷ cs)) (sym e)
      (Accepted-more is p rest c t (IsLine-Accepted l))

pub check_line-Accepted :
    {ts : List Token} {ls : List (List Item)} (a : Accepted true ts ls)
    → check_line ts ≡ ok (ts ∷ a.later)
unfolding check_line split_in_commands
check_line-Accepted {ts = []} a = absurd (cc (a.starts))
check_line-Accepted {ts = t ∷ ts} a = rw (a.starts, a.splits, a.valid)

-- What `check_line` goes on with.
pub record Passed (ts : List Token) (cs : List (List Token)) : Type 0 where
  pub later : List (List Token)
  pub starts : is_command_end ts ≡ false
  pub pointers : cs ≡ ts ∷ later
  pub splits : split_from ts ≡ some later
  pub valid : validate_commands true (ts ∷ later) ≡ false

pub check_line-Passed :
    (ts : List Token) {cs : List (List Token)} → check_line ts ≡ ok cs → Passed ts cs
unfolding check_line split_in_commands
check_line-Passed [] h = absurd (cc)
check_line-Passed (t ∷ ts) {cs} h = elim (Bool-cases (is_pipe t.type)) [
  | inl p ↦ absurd (ground arith)
  | inr p ↦ elim (Option-cases (split_from (t ∷ ts))) [
    | inl n ↦ absurd (ground arith)
    | inr (l, s) ↦ elim (Bool-cases (validate_commands true ((t ∷ ts) ∷ l))) [
      | inl v ↦ absurd (ground arith)
      | inr v ↦ record { later = l; starts = p; pointers = ground arith; splits = s; valid = v }
    ]
  ]
]

-- `Exec` goes on to run a line exactly when the line follows the grammar: commands with an item
-- each, a pipe between two of them, at most one input redirection, in the first command, at most
-- one output redirection, in the last, and a word behind each.
pub check_line_iff :
    (ts : List Token)
    → ((cs : List (List Token)) × (check_line ts ≡ ok cs))
      ↔ ((ls : List (List Item)) × IsLine true ts ls)
check_line_iff ts = (
  (λ h. let p = check_line-Passed ts h.1 in IsLine-of true ts p.later p.splits p.valid p.starts),
  (λ h. (_, check_line-Accepted (IsLine-Accepted h.1))),
)
