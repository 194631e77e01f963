-- ===== src/Strace/Line/Sound.antt =====
-- The search against the shape that the pattern describes.
use unikernel_syscall_monito.Base.{
  ℕ, ◌≡◌, refl, ap, ap₂, ==_iff, ◌∙◌, true, false, ◌&&◌, some, [], ◌∷◌, ◌++◌, ◌==◌, arith, All,
  Bool-cases, Option-cases, inl, inr,
}
use mathlib.Core.Option.{none-ne-some}
use unikernel_syscall_monito.Base.Text.{Text}
use unikernel_syscall_monito.Py.Strip.{is_space}
use unikernel_syscall_monito.Strace.Line.{
  is_ident_start, is_ident, equals_next, closes, name_rest, search_line,
}

-- `name(arguments) =` behind some text and with some text behind.
abbrev pub call : Text → Text → Text → Text → Text
call name arguments spaces rest = name ++ b'(' ∷ (arguments ++ b')' ∷ (spaces ++ b'=' ∷ rest))

abbrev pub IsName : Text → Type 0
IsName [] = ⊥
IsName (c ∷ s) = (is_ident_start c ≡ true) × All (λ d. is_ident d ≡ true) s

abbrev pub IsBlank : Text → Type 0
IsBlank = All (λ c. is_space c ≡ true)

equals_next_lem : (spaces rest : Text) → IsBlank spaces → equals_next (spaces ++ b'=' ∷ rest) ≡ true
unfolding equals_next
equals_next_lem [] rest h = refl
equals_next_lem (c ∷ s) rest h = ground (arith, equals_next_lem s rest h.1)

closes_lem :
    (arguments spaces rest : Text)
    → IsBlank spaces
    → closes (arguments ++ b')' ∷ (spaces ++ b'=' ∷ rest)) ≡ true
unfolding closes
closes_lem [] spaces rest h = rw (equals_next_lem spaces rest h)
closes_lem (c ∷ s) spaces rest h = ground (arith, closes_lem s spaces rest h)

paren_not_ident : is_ident b'(' ≡ false
unfolding is_ident
paren_not_ident = refl

name_rest_lem :
    (name t : Text)
    → All (λ d. is_ident d ≡ true) name
    → closes t ≡ true
    → name_rest (name ++ b'(' ∷ t) ≡ some name
unfolding name_rest
name_rest_lem [] t h k = rw (paren_not_ident, k)
name_rest_lem (c ∷ s) t h k = rw (h.0, name_rest_lem s t h.1 k)

search_name :
    (name t : Text) → IsName name → closes t ≡ true → search_line (name ++ b'(' ∷ t) ≡ some name
unfolding search_line
search_name [] t h k = absurd h
search_name (c ∷ s) t h k = rw (h.0, name_rest_lem s t h.1 k)

search_front :
    (front t : Text)
    → All (λ c. is_ident_start c ≡ false) front
    → search_line (front ++ t) ≡ search_line t
unfolding search_line
search_front [] t h = refl
search_front (c ∷ s) t h = rw h.0 (search_front s t h.1)

-- A line of the trace, `name(arguments) = result` behind white space or other noise without
-- letters, yields its name, whatever the arguments and the result are.
pub search_line-call :
    (front name arguments spaces rest : Text)
    → All (λ c. is_ident_start c ≡ false) front
    → IsName name
    → IsBlank spaces
    → search_line (front ++ call name arguments spaces rest) ≡ some name
search_line-call front name arguments spaces rest f n b =
    search_front front (call name arguments spaces rest) f
    ∙ search_name name _ n (closes_lem arguments spaces rest b)

-- What a match has found.
pub record IsCall (line name : Text) : Type 0 where
  pub front : Text
  pub arguments : Text
  pub spaces : Text
  pub rest : Text
  pub split : line ≡ front ++ call name arguments spaces rest
  pub named : IsName name
  pub blank : IsBlank spaces

equals_next_sound :
    (s : Text)
    → equals_next s ≡ true
    → (spaces rest : Text) × IsBlank spaces × (s ≡ spaces ++ b'=' ∷ rest)
unfolding equals_next
equals_next_sound [] h = cc
equals_next_sound (c ∷ s) h = elim (Bool-cases (c == b'=')) [
  | inl e ↦ ([], s, tt, ap (λ d. d ∷ s) ((==_iff c b'=').0 e))
  | inr e ↦
      let (spaces, rest, blank, split) = equals_next_sound s (ground arith) in
      (c ∷ spaces, rest, (ground arith, blank), ap (λ t. c ∷ t) split)
]

closes_sound :
    (s : Text)
    → closes s ≡ true
    → (arguments spaces rest : Text) × IsBlank spaces
      × (s ≡ arguments ++ b')' ∷ (spaces ++ b'=' ∷ rest))
unfolding closes
closes_sound [] h = cc
closes_sound (c ∷ s) h = elim (Bool-cases (c == b')' && equals_next s)) [
  | inl e ↦
      let (spaces, rest, blank, split) = equals_next_sound s (ground arith) in
      ([], spaces, rest, blank, ap₂ (λ d t. d ∷ t) ((==_iff c b')').0 (ground arith)) split)
  | inr e ↦
      let (arguments, spaces, rest, blank, split) = closes_sound s (ground arith) in
      (c ∷ arguments, spaces, rest, blank, ap (λ t. c ∷ t) split)
]

-- What the rest of an identifier is followed by.
abbrev Follows : Text → Text → Type 0
Follows s name =
    (arguments spaces rest : Text) × IsBlank spaces
    × (s ≡ name ++ b'(' ∷ (arguments ++ b')' ∷ (spaces ++ b'=' ∷ rest)))

name_rest_sound :
    (s name : Text) → name_rest s ≡ some name → All (λ d. is_ident d ≡ true) name × Follows s name
unfolding name_rest
name_rest_sound [] name h = cc
name_rest_sound (c ∷ s) name h = elim (Bool-cases (is_ident c)) [
  | inl ident ↦ elim (Option-cases (name_rest s)) [
    | inl e ↦ absurd (ground arith)
    | inr (n, e) ↦
        let same : c ∷ n ≡ name = ground arith in
        let (idents, (arguments, spaces, rest, blank, split)) = name_rest_sound s n e in
        rw (← same) ((ident, idents), (arguments, spaces, rest, blank, ap (λ t. c ∷ t) split))
  ]
  | inr other ↦
      let same : [] ≡ name = ground arith in
      let (arguments, spaces, rest, blank, split) = closes_sound s (ground arith) in
      rw (← same) (
        tt,
        (
          arguments,
          spaces,
          rest,
          blank,
          ap₂ (λ d t. d ∷ t) ((==_iff c b'(').0 (ground arith)) split,
        ),
      )
]

-- A match one character further on is a match.
IsCall-cons : (c : ℕ) (s name : Text) → IsCall s name → IsCall (c ∷ s) name
IsCall-cons c s name k = record {
  front = c ∷ k.front;
  arguments = k.arguments;
  spaces = k.spaces;
  rest = k.rest;
  split = ap (λ t. c ∷ t) k.split;
  named = k.named;
  blank = k.blank;
}

IsCall-here :
    (c : ℕ) (s n : Text) → is_ident_start c ≡ true → name_rest s ≡ some n → IsCall (c ∷ s) (c ∷ n)
IsCall-here c s n start e =
    let (idents, (arguments, spaces, rest, blank, split)) = name_rest_sound s n e in
    record {
      front = [];
      arguments = arguments;
      spaces = spaces;
      rest = rest;
      split = ap (λ t. c ∷ t) split;
      named = (start, idents);
      blank = blank;
    }

-- A name is found only where the line holds a call of that shape.
pub search_line-IsCall : (line name : Text) → search_line line ≡ some name → IsCall line name
unfolding search_line
search_line-IsCall [] name h = absurd (none-ne-some name h)
search_line-IsCall (c ∷ s) name h = elim (Bool-cases (is_ident_start c)) [
  | inl start ↦ elim (Option-cases (name_rest s)) [
    | inl e ↦ IsCall-cons c s name (search_line-IsCall s name (ground arith))
    | inr (n, e) ↦ let same : c ∷ n ≡ name = ground arith in rw (← same) (IsCall-here c s n start e)
  ]
  | inr other ↦ IsCall-cons c s name (search_line-IsCall s name (ground arith))
]
