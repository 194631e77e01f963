-- ===== src/Bench/Pattern/Laws/Figure.antt =====
-- A label at the front of a text, with its figure.
use unikernel_syscall_monito.Base.{
  ℕ, ◌≡◌, ◌≢◌, refl, ap, ◌∙◌, Bool, true, false, Option, none, some, [], ◌∷◌, ◌++◌, if◌then◌else◌,
  All, subst,
}
use unikernel_syscall_monito.Base.Text.{Text}
use unikernel_syscall_monito.Py.Strip.{is_space}
use unikernel_syscall_monito.Bench.Pattern.{◌>>=◌, literal, one_or_more, Tail, fits, figure_at}
use unikernel_syscall_monito.Bench.Pattern.Laws.{
  Ends, Only, literal-append, literal-some, one_or_more-append, one_or_more-some,
}

-- The label, white space, the figure in full, and what the pattern asks for behind it.
pub record Heads (label : Text) (p : ℕ → Bool) (tail : Tail) (figure s : Text) : Type 0 where
  pub blank : Text
  pub rest : Text
  pub text : s ≡ label ++ (blank ++ (figure ++ rest))
  pub some_blank : blank ≢ []
  pub only_blank : Only is_space blank
  pub some_figure : figure ≢ []
  pub only_figure : Only p figure
  pub ends : Ends p rest
  pub fit : fits tail rest ≡ true

bind-some :
    {A B : Type 0} (o : Option A) (f : A → Option B) (b : B)
    → (o >>= f) ≡ some b
    → (a : A) × (o ≡ some a) × (f a ≡ some b)
bind-some none f b h = cc h
bind-some (some a) f b h = (a, refl, h)

Ends-append : (p : ℕ → Bool) (s t : Text) → s ≢ [] → All (λ c. p c ≡ false) s → Ends p (s ++ t)
Ends-append p [] t ne h = absurd (ne refl)
Ends-append p (c ∷ s) t ne h = h.0

All-disjoint :
    (p q : ℕ → Bool) (s : Text)
    → ((c : ℕ) → p c ≡ true → q c ≡ false)
    → Only p s
    → All (λ c. q c ≡ false) s
All-disjoint p q [] d h = tt
All-disjoint p q (c ∷ s) d h = (d c h.0, All-disjoint p q s d h.1)

if_fits : (b : Bool) (s t : Text) → (if b then some s else none) ≡ some t → (b ≡ true) × (s ≡ t)
if_fits true s t h = (refl, cc h)
if_fits false s t h = cc h

module _ (is_digit : ℕ → Bool) (label : Text) (p : ℕ → Bool) (tail : Tail) where
  pub figure_at-Heads :
      (s figure : Text)
      → figure_at is_digit label p tail s ≡ some figure
      → Heads label p tail figure s
  unfolding figure_at
  figure_at-Heads s figure h =
      let (t, found, h₁) = bind-some (literal label s) _ figure h in
      let (blank, spaced, h₂) = bind-some (one_or_more is_space t) _ figure h₁ in
      let (run, digits, h₃) = bind-some (one_or_more p blank.1) _ figure h₂ in
      let (fit, same) = if_fits (fits tail run.1) run.0 figure h₃ in
      let (blanks, some_blank) = one_or_more-some is_space t blank.0 blank.1 spaced in
      let (figures, some_figure) = one_or_more-some p blank.1 run.0 run.1 digits in
      subst (λ g. Heads label p tail g s) same
        (record {
          blank = blank.0;
          rest = run.1;
          text =
              literal-some label s t found
              ∙ ap (λ u. label ++ u) (blanks.text ∙ ap (λ u. blank.0 ++ u) figures.text);
          some_blank = some_blank;
          only_blank = blanks.only;
          some_figure = some_figure;
          only_figure = figures.only;
          ends = figures.ends;
          fit = fit;
        })

  pub Heads-figure_at :
      (s figure : Text)
      → ((c : ℕ) → p c ≡ true → is_space c ≡ false)
      → Heads label p tail figure s
      → figure_at is_digit label p tail s ≡ some figure
  unfolding figure_at
  Heads-figure_at s figure disjoint h =
      let after = figure ++ h.rest in
      let opens =
        Ends-append is_space figure h.rest h.some_figure
          (All-disjoint p is_space figure disjoint h.only_figure) in
      rw
        (
          h.text,
          literal-append label (h.blank ++ after),
          one_or_more-append is_space h.blank after h.some_blank h.only_blank opens,
          one_or_more-append p figure h.rest h.some_figure h.only_figure h.ends,
          h.fit,
        )
        refl
