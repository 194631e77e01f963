-- ===== src/Bench/Pattern/Laws.antt =====
-- The parts of a pattern: literals and runs of a class.
pub mod Figure
pub mod Search
pub mod Stands
use unikernel_syscall_monito.Base.{
  ℕ, ◌≡◌, ◌≢◌, refl, ap, sym, ◌∙◌, Bool, true, false, ◌||◌, Option, none, some, List, [], ◌∷◌, ◌++◌,
  ◌==◌, if◌then◌else◌, Bool-cases, Option-cases, inl, inr, ◌⊎◌, All, arith, append_assoc, subst,
}
use unikernel_syscall_monito.Base.Text.{Text, codes}
use unikernel_syscall_monito.Py.Strip.{is_space}
use unikernel_syscall_monito.Bench.Pattern.{
  ◌>>=◌, literal, span, not_empty, one_or_more, Tail, fits, figure_at,
}

-- The text does not go on with a character of the class.
abbrev pub Ends : (ℕ → Bool) → Text → Type 0
Ends p [] = Unit
Ends p (c ∷ s) = p c ≡ false

abbrev pub Only : (ℕ → Bool) → Text → Type 0
Only p = All (λ c. p c ≡ true)

pub literal-append : (p s : Text) → literal p (p ++ s) ≡ some s
unfolding literal
literal-append [] s = refl
literal-append (d ∷ p) s = ground (arith, literal-append p s)

pub literal-some : (p s t : Text) → literal p s ≡ some t → s ≡ p ++ t
unfolding literal
literal-some [] s t h = cc h
literal-some (d ∷ p) [] t h = cc h
literal-some (d ∷ p) (c ∷ s) t h = ground (arith, literal-some p s t)

pub span-append :
    (p : ℕ → Bool) (s rest : Text) → Only p s → Ends p rest → span p (s ++ rest) ≡ (s, rest)
unfolding span
span-append p [] [] h e = refl
span-append p [] (c ∷ rest) h e = rw e refl
span-append p (c ∷ s) rest h e = rw (h.0, span-append p s rest h.1 e) refl

pub record Spans (p : ℕ → Bool) (s front rest : Text) : Type 0 where
  pub text : s ≡ front ++ rest
  pub only : Only p front
  pub ends : Ends p rest

pub span-Spans : (p : ℕ → Bool) (s : Text) → Spans p s (span p s).0 (span p s).1
unfolding span
span-Spans p [] = record { text = refl; only = tt; ends = tt }
span-Spans p (c ∷ s) = elim (Bool-cases (p c)) [
  | inl fit ↦
      let later = span-Spans p s in
      rw fit
        (record { text = ap (λ t. c ∷ t) later.text; only = (fit, later.only); ends = later.ends })
  | inr unfit ↦ rw unfit (record { text = refl; only = tt; ends = unfit })
]

pub one_or_more-append :
    (p : ℕ → Bool) (s rest : Text)
    → s ≢ []
    → Only p s
    → Ends p rest
    → one_or_more p (s ++ rest) ≡ some (s, rest)
unfolding one_or_more
one_or_more-append p [] rest ne h e = absurd (ne refl)
one_or_more-append p (c ∷ s) rest ne h e = ap not_empty (span-append p (c ∷ s) rest h e)

not_empty-some :
    (r : Text × Text) (s rest : Text) → not_empty r ≡ some (s, rest) → (r ≡ (s, rest)) × (s ≢ [])
not_empty-some ([], r) s rest h = cc h
not_empty-some (c ∷ t, r) s rest h = (cc h, λ e. cc (h, e))

pub one_or_more-some :
    (p : ℕ → Bool) (s front rest : Text)
    → one_or_more p s ≡ some (front, rest)
    → Spans p s front rest × (front ≢ [])
unfolding one_or_more
one_or_more-some p s front rest h =
    let (same, ne) = not_empty-some (span p s) front rest h in
    (subst (λ r. Spans p s r.0 r.1) same (span-Spans p s), ne)
