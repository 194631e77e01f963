-- ===== src/Bench/Pattern/Laws/Stands.antt =====
-- Where the figure of a pattern of AB_PATTERNS stands in a text.
use unikernel_syscall_monito.Base.{
  ℕ, ◌≡◌, ◌≢◌, ap, ◌∙◌, Bool, true, false, none, some, [], ◌∷◌, ◌++◌, ◌==◌, Bool-cases, inl, inr,
  arith,
}
use unikernel_syscall_monito.Base.Text.{Text}
use unikernel_syscall_monito.Py.Strip.{is_space}
use unikernel_syscall_monito.Bench.Pattern.{
  span, anything, figure_at, Pattern, decimal, whole, at_line_start, is_decimal, indented,
  find_figure,
}
use unikernel_syscall_monito.Bench.Pattern.Laws.{Ends, Only, span-append, span-Spans}
use unikernel_syscall_monito.Bench.Pattern.Laws.Figure.{Heads, figure_at-Heads, Heads-figure_at}
use unikernel_syscall_monito.Bench.Pattern.Laws.Search.{
  Within, AtStart, search-some, search-append, search_starts-some, search_starts-found,
}

point_no_space : (c : ℕ) → (c == b'.') ≡ true → is_space c ≡ false
unfolding is_space
point_no_space c e = ground arith

module _ (is_digit : ℕ → Bool) where
  -- The figure behind a label, with white space before it.
  abbrev Indented : Text → Text → Text → Type 0
  Indented label figure s =
      (blank : Text) × (back : Text) × (s ≡ blank ++ back)
      × Only is_space blank
      × Heads label is_digit anything figure back

  abbrev pub Stands : Pattern → Text → Text → Type 0
  Stands (decimal label tail) figure = Within (Heads label (is_decimal is_digit) tail figure)
  Stands (whole label) figure = Within (Heads label is_digit anything figure)
  Stands (at_line_start label) figure = AtStart (Indented label figure)

  -- A label of a line does not begin with white space.
  abbrev pub IsPlain : Pattern → Type 0
  IsPlain (decimal label tail) = Unit
  IsPlain (whole label) = Unit
  IsPlain (at_line_start []) = ⊥
  IsPlain (at_line_start (c ∷ label)) = is_space c ≡ false

  indented-Indented : (label s g : Text) → indented is_digit label s ≡ some g → Indented label g s
  unfolding indented
  indented-Indented label s g h =
      let front = span-Spans is_space s in
      (
        (span is_space s).0,
        (span is_space s).1,
        front.text,
        front.only,
        figure_at-Heads is_digit label is_digit anything (span is_space s).1 g h,
      )

  pub find_figure-Stands :
      (pattern : Pattern) (s g : Text)
      → find_figure is_digit pattern s ≡ some g
      → Stands pattern g s
  unfolding find_figure
  find_figure-Stands (decimal label tail) s g h =
      let (front, back, e, k) =
        search-some (figure_at is_digit label (is_decimal is_digit) tail) s g h in
      (front, back, e, figure_at-Heads is_digit label (is_decimal is_digit) tail back g k)
  find_figure-Stands (whole label) s g h =
      let (front, back, e, k) = search-some (figure_at is_digit label is_digit anything) s g h in
      (front, back, e, figure_at-Heads is_digit label is_digit anything back g k)
  find_figure-Stands (at_line_start label) s g h =
      elim (search_starts-some (indented is_digit label) s g h) [
        | inl k ↦ inl (indented-Indented label s g k)
        | inr (above, back, e, k) ↦ inr (above, back, e, indented-Indented label back g k)
      ]

  module _ (disjoint : (c : ℕ) → is_digit c ≡ true → is_space c ≡ false) where
    decimal_disjoint : (c : ℕ) → is_decimal is_digit c ≡ true → is_space c ≡ false
    decimal_disjoint c h = elim (Bool-cases (is_digit c)) [
      | inl digit ↦ disjoint c digit
      | inr other ↦ point_no_space c (rw other at h)
    ]

    Indented-indented :
        (c : ℕ) (label s g : Text)
        → is_space c ≡ false
        → Indented (c ∷ label) g s
        → indented is_digit (c ∷ label) s ≡ some g
    unfolding indented
    Indented-indented c label s g plain (blank, back, e, only, heads) =
        let opens : Ends is_space back = rw heads.text plain in
        ap (λ t. figure_at is_digit (c ∷ label) is_digit anything (span is_space t).1) e
        ∙ ap (λ r. figure_at is_digit (c ∷ label) is_digit anything r.1)
            (span-append is_space blank back only opens)
        ∙ Heads-figure_at is_digit (c ∷ label) is_digit anything back g disjoint heads

    pub Stands-find_figure :
        (pattern : Pattern) (s g : Text)
        → IsPlain pattern
        → Stands pattern g s
        → find_figure is_digit pattern s ≢ none
    unfolding find_figure
    Stands-find_figure (decimal label tail) s g plain (front, back, e, heads) = rw e (
        search-append (figure_at is_digit label (is_decimal is_digit) tail) front back g
          (Heads-figure_at is_digit label (is_decimal is_digit) tail back g decimal_disjoint heads))
    Stands-find_figure (whole label) s g plain (front, back, e, heads) = rw e (
        search-append (figure_at is_digit label is_digit anything) front back g
          (Heads-figure_at is_digit label is_digit anything back g disjoint heads))
    Stands-find_figure (at_line_start []) s g plain h = absurd plain
    Stands-find_figure (at_line_start (c ∷ label)) s g plain (inl heads) =
        search_starts-found (indented is_digit (c ∷ label)) s g
          (inl (Indented-indented c label s g plain heads))
    Stands-find_figure (at_line_start (c ∷ label)) s g plain (inr (above, back, e, heads)) =
        search_starts-found (indented is_digit (c ∷ label)) s g
          (inr (above, back, e, Indented-indented c label back g plain heads))
