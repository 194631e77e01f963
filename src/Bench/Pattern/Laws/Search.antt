-- ===== src/Bench/Pattern/Laws/Search.antt =====
-- The search for a match, and the figures of whole patterns.
use unikernel_syscall_monito.Base.{
  ℕ, ◌≡◌, ◌≢◌, refl, ap, ◌∙◌, Option, none, some, [], ◌∷◌, ◌++◌, ◌==◌, Bool-cases, Option-cases,
  inl, inr, ◌⊎◌, arith,
}
use unikernel_syscall_monito.Base.Text.{Text}
use unikernel_syscall_monito.Bench.Pattern.{search, search_later, search_starts}

-- There is a match after some front.
abbrev pub Within : (Text → Type 0) → Text → Type 0
Within P s = (front : Text) × (back : Text) × (s ≡ front ++ back) × P back

cons-Within : {P : Text → Type 0} (c : ℕ) (s : Text) → Within P s → Within P (c ∷ s)
cons-Within c s (front, back, e, h) = (c ∷ front, back, ap (λ t. c ∷ t) e, h)

pub search-some :
    (m : Text → Option Text) (s g : Text) → search m s ≡ some g → Within (λ t. m t ≡ some g) s
unfolding search
search-some m [] g h = ([], [], refl, h)
search-some m (c ∷ s) g h = elim (Option-cases (m (c ∷ s))) [
  | inl e ↦ cons-Within c s (search-some m s g (rw e at h))
  | inr (g', e) ↦ ([], c ∷ s, refl, e ∙ rw e at h)
]

pub search-append :
    (m : Text → Option Text) (front back g : Text)
    → m back ≡ some g
    → search m (front ++ back) ≢ none
unfolding search
search-append m [] [] g h = λ e. cc (e, h)
search-append m [] (c ∷ back) g h = rw h (λ e. cc e)
search-append m (d ∷ front) back g h = elim (Option-cases (m (d ∷ (front ++ back)))) [
  | inl e ↦ rw e (search-append m front back g h)
  | inr (g', e) ↦ rw e (λ k. cc k)
]

-- Behind a newline.
abbrev pub Below : (Text → Type 0) → Text → Type 0
Below P s = (above : Text) × (back : Text) × (s ≡ above ++ b'\n' ∷ back) × P back

cons-Below : {P : Text → Type 0} (c : ℕ) (s : Text) → Below P s → Below P (c ∷ s)
cons-Below c s (above, back, e, h) = (c ∷ above, back, ap (λ t. c ∷ t) e, h)

search_later-some :
    (m : Text → Option Text) (s g : Text) → search_later m s ≡ some g → Below (λ t. m t ≡ some g) s
unfolding search_later
search_later-some m [] g h = cc h
search_later-some m (c ∷ s) g h = elim (Bool-cases (c == b'\n')) [
  | inl newline ↦ elim (Option-cases (m s)) [
    | inl e ↦ cons-Below c s (search_later-some m s g (rw (newline, e) at h))
    | inr (g', e) ↦ ([], s, ground arith, e ∙ rw (newline, e) at h)
  ]
  | inr other ↦ cons-Below c s (search_later-some m s g (rw other at h))
]

search_later-append :
    (m : Text → Option Text) (above back g : Text)
    → m back ≡ some g
    → search_later m (above ++ b'\n' ∷ back) ≢ none
unfolding search_later
search_later-append m [] back g h = rw h (λ e. cc e)
search_later-append m (d ∷ above) back g h = elim (Bool-cases (d == b'\n')) [
  | inl newline ↦ elim (Option-cases (m (above ++ b'\n' ∷ back))) [
    | inl e ↦ rw (newline, e) (search_later-append m above back g h)
    | inr (g', e) ↦ rw (newline, e) (λ k. cc k)
  ]
  | inr other ↦ rw other (search_later-append m above back g h)
]

-- At the start of a line, which is the start of the text or behind a newline.
abbrev pub AtStart : (Text → Type 0) → Text → Type 0
AtStart P s = P s ⊎ Below P s

pub search_starts-some :
    (m : Text → Option Text) (s g : Text)
    → search_starts m s ≡ some g
    → AtStart (λ t. m t ≡ some g) s
unfolding search_starts
search_starts-some m s g h = elim (Option-cases (m s)) [
  | inl e ↦ inr (search_later-some m s g (rw e at h))
  | inr (g', e) ↦ inl (e ∙ rw e at h)
]

pub search_starts-found :
    (m : Text → Option Text) (s g : Text) → AtStart (λ t. m t ≡ some g) s → search_starts m s ≢ none
unfolding search_starts
search_starts-found m s g (inl h) = rw h (λ e. cc e)
search_starts-found m s g (inr (above, back, e, h)) = elim (Option-cases (m s)) [
  | inl none_here ↦ rw (none_here, e) (search_later-append m above back g h)
  | inr (g', here) ↦ rw here (λ k. cc k)
]
