-- ===== src/Json/Loads/Numbers.antt =====
-- The numbers of JSON: an integer, or a float if there is a fraction or an exponent.
use unikernel_syscall_monito.Base.{
  ℕ, Bool, true, false, ◌||◌, Option, none, some, [], ◌∷◌, ◌++◌, ◌==◌, between, if◌then◌else◌,
}
use unikernel_syscall_monito.Base.Int.{pos, negate}
use unikernel_syscall_monito.Base.Text.{Text}
use unikernel_syscall_monito.Json.Value.{Json, int, real}
use unikernel_syscall_monito.Py.Number.{value}

abbrev is_digit : ℕ → Bool
is_digit c = between b'0' b'9' c

-- The digits that a text begins with, and the rest.
unfoldable pub span_digits : Text → Text × Text
span_digits [] = ([], [])
span_digits (c ∷ s) = let (ds, r) = span_digits s in if is_digit c then (c ∷ ds, r) else ([], c ∷ s)

-- The digits before the point: a zero alone, or digits that begin with another.
unfoldable pub whole_part : Text → Option (Text × Text)
whole_part [] = none
whole_part (c ∷ s) =
    if c == b'0'
    then some (c ∷ [], s)
    else if is_digit c
    then (let (ds, r) = span_digits s in some (c ∷ ds, r))
    else none

-- What was matched if it has a digit, and nothing if not.
abbrev pub with_digits : Text → Text × Text → Text → Text × Text
with_digits front ([], r) whole = ([], whole)
with_digits front (d ∷ ds, r) whole = (front ++ d ∷ ds, r)

-- A point counts only with a digit behind it.
unfoldable pub fraction_part : Text → Text × Text
fraction_part [] = ([], [])
fraction_part (c ∷ s) = if c == b'.' then with_digits [] (span_digits s) (c ∷ s) else ([], c ∷ s)

-- An exponent counts only with a digit.
unfoldable pub exponent_part : Text → Text × Text
exponent_part [] = ([], [])
exponent_part (e ∷ []) = ([], e ∷ [])
exponent_part (e ∷ c ∷ s) =
    if e == b'e' || e == b'E'
    then (if c == b'+' || c == b'-'
        then with_digits (e ∷ c ∷ []) (span_digits s) (e ∷ c ∷ s)
        else with_digits (e ∷ []) (span_digits (c ∷ s)) (e ∷ c ∷ s))
    else ([], e ∷ c ∷ s)

abbrev pub number_of : Bool → Text → Text → Text → Json
number_of negative whole [] [] =
    int (if negative then negate (value 10 0 whole) else pos (value 10 0 whole))
number_of negative whole fraction exponent =
    real (record { negative = negative; whole = whole; fraction = fraction; exponent = exponent })

unfoldable pub read_unsigned : Bool → Text → Option (Json × Text)
unfolding span_digits whole_part fraction_part exponent_part
read_unsigned negative s = elim (whole_part s) [
  | none ↦ none
  | some (whole, r) ↦
      let (fraction, t) = fraction_part r in
      let (exponent, u) = exponent_part t in some (number_of negative whole fraction exponent, u)
]

unfoldable pub read_number : Text → Option (Json × Text)
unfolding read_unsigned
read_number [] = none
read_number (c ∷ s) = if c == b'-' then read_unsigned true s else read_unsigned false (c ∷ s)
