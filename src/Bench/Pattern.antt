-- ===== src/Bench/Pattern.antt =====
-- `AB_PATTERNS` of bench_overhead.py: a label, white space and a figure. The classes of characters
-- in such a pattern are disjoint, so the longest run of each is the only one that can match.
pub mod Laws
use unikernel_syscall_monito.Base.{
  ℕ, Bool, true, false, ◌||◌, Option, none, some, List, [], ◌∷◌, ◌++◌, ◌==◌, if◌then◌else◌,
}
use unikernel_syscall_monito.Base.Text.{Text, codes}
use unikernel_syscall_monito.Py.Strip.{is_space, starts_with}

infixl 5 ◌>>=◌
abbrev pub ◌>>=◌ : {A B : Type 0} → Option A → (A → Option B) → Option B
none >>= f = none
some a >>= f = f a

-- What follows a literal text.
unfoldable pub literal : Text → Text → Option Text
literal [] s = some s
literal (d ∷ p) [] = none
literal (d ∷ p) (c ∷ s) = let rest = literal p s in if c == d then rest else none

-- The longest run of a class at the front, and what follows it.
unfoldable pub span : (ℕ → Bool) → Text → Text × Text
span p [] = ([], [])
span p (c ∷ s) = let rest = span p s in if p c then (c ∷ rest.0, rest.1) else ([], c ∷ s)

abbrev pub not_empty : Text × Text → Option (Text × Text)
not_empty ([], rest) = none
not_empty (c ∷ s, rest) = some (c ∷ s, rest)

-- `[...]+`
unfoldable pub one_or_more : (ℕ → Bool) → Text → Option (Text × Text)
unfolding span
one_or_more p s = not_empty (span p s)

-- What a pattern asks for behind the figure.
pub data Tail : Type 0 where
  anything : Tail
  of_mean : Tail

abbrev pub is_mean : Option (Text × Text) → Bool
is_mean none = false
is_mean (some (blank, s)) = starts_with s (codes "(mean)")

abbrev pub mean_after : Option Text → Bool
mean_after none = false
mean_after (some s) = is_mean (one_or_more is_space s)

-- `\s+\[ms\]\s+\(mean\)`
abbrev pub unit_after : Option (Text × Text) → Bool
unit_after none = false
unit_after (some (blank, s)) = mean_after (literal (codes "[ms]") s)

unfoldable pub fits : Tail → Text → Bool
unfolding one_or_more literal starts_with
fits anything s = true
fits of_mean s = unit_after (one_or_more is_space s)

-- The class `\d` of Unicode.
module _ (is_digit : ℕ → Bool) where
  -- `[\d.]`
  abbrev pub is_decimal : ℕ → Bool
  is_decimal c = is_digit c || c == b'.'

  -- The figure behind a label that stands at the front.
  unfoldable pub figure_at : Text → (ℕ → Bool) → Tail → Text → Option Text
  unfolding literal one_or_more fits
  figure_at label p tail s = do
    t ← literal label s
    blank ← one_or_more is_space t
    figure ← one_or_more p blank.1
    if fits tail figure.1 then some figure.0 else none

abbrev pub or_else : Option Text → Option Text → Option Text
or_else none later = later
or_else (some g) later = some g

-- `pattern.search(text)`: the leftmost match.
unfoldable pub search : (Text → Option Text) → Text → Option Text
search m [] = m []
search m (c ∷ s) = let later = search m s in or_else (m (c ∷ s)) later

-- With `^` under `re.MULTILINE`, behind a newline.
unfoldable pub search_later : (Text → Option Text) → Text → Option Text
search_later m [] = none
search_later m (c ∷ s) =
    let later = search_later m s in if c == b'\n' then or_else (m s) later else later

unfoldable pub search_starts : (Text → Option Text) → Text → Option Text
unfolding search_later
search_starts m s = or_else (m s) (search_later m s)

pub data Pattern : Type 0 where
  decimal : Text → Tail → Pattern
  whole : Text → Pattern
  at_line_start : Text → Pattern

module _ (is_digit : ℕ → Bool) where
  -- `^\s*` and a label.
  unfoldable pub indented : Text → Text → Option Text
  unfolding span figure_at
  indented label s = figure_at is_digit label is_digit anything (span is_space s).1

  unfoldable pub find_figure : Pattern → Text → Option Text
  unfolding search search_starts figure_at indented
  find_figure (decimal label tail) s =
      search (figure_at is_digit label (is_decimal is_digit) tail) s
  find_figure (whole label) s = search (figure_at is_digit label is_digit anything) s
  find_figure (at_line_start label) s = search_starts (indented label) s
