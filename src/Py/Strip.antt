-- ===== src/Py/Strip.antt =====
-- `str.isspace`, `str.strip`, `str.startswith`, `str.endswith` and `in`.
use unikernel_syscall_monito.Base.{
  ℕ, ◌≡◌, refl, ap, ◌∙◌, Bool-cases, inl, inr, ◌++◌, Bool, true, false, ◌&&◌, ◌||◌, [], ◌∷◌, ◌==◌,
  between, if◌then◌else◌, All, arith,
}
use unikernel_syscall_monito.Base.Text.{Text, text_eq, text_eq_iff}

-- The white space of `str.isspace` and `str.strip`.
unfoldable pub is_space : ℕ → Bool
is_space c =
    between 9 13 c
    || between 28 32 c
    || c == 133
    || c == 160
    || c == 5760
    || between 8192 8202 c
    || c == 8232
    || c == 8233
    || c == 8239
    || c == 8287
    || c == 12288

unfoldable pub left_strip : Text → Text
left_strip [] = []
left_strip (c ∷ s) = let rest = left_strip s in if is_space c then rest else c ∷ s

unfoldable pub right_strip : Text → Text
right_strip [] = []
right_strip (c ∷ s) = elim (right_strip s) [
  | [] ↦ if is_space c then [] else c ∷ []
  | d ∷ t ↦ c ∷ d ∷ t
]

unfoldable pub strip : Text → Text
unfolding left_strip right_strip
strip s = right_strip (left_strip s)

unfoldable pub starts_with : Text → Text → Bool
starts_with s [] = true
starts_with [] (d ∷ p) = false
starts_with (c ∷ s) (d ∷ p) = (c == d) && starts_with s p

-- `s.endswith(p)`: some suffix is `p`.
unfoldable pub ends_with : Text → Text → Bool
ends_with [] p = text_eq [] p
ends_with (c ∷ s) p = text_eq (c ∷ s) p || ends_with s p

-- `p in s`
unfoldable pub contains : Text → Text → Bool
unfolding starts_with
contains [] p = starts_with [] p
contains (c ∷ s) p = starts_with (c ∷ s) p || contains s p

-- No white space at either end.
abbrev pub NoSpace : Text → Type 0
NoSpace = All (λ c. is_space c ≡ false)

right_strip-NoSpace : (s : Text) → NoSpace s → right_strip s ≡ s
unfolding right_strip
right_strip-NoSpace [] h = refl
right_strip-NoSpace (c ∷ []) h = rw h.0
right_strip-NoSpace (c ∷ d ∷ s) h = rw (right_strip-NoSpace (d ∷ s) h.1, right_strip)

left_strip-NoSpace : (s : Text) → NoSpace s → left_strip s ≡ s
unfolding left_strip
left_strip-NoSpace [] h = refl
left_strip-NoSpace (c ∷ s) h = rw h.0

pub strip-NoSpace : (s : Text) → NoSpace s → strip s ≡ s
unfolding strip
strip-NoSpace s h = rw (left_strip-NoSpace s h) (right_strip-NoSpace s h)

right_strip-line :
    (s : Text) (c : ℕ) → is_space c ≡ false → right_strip (s ++ c ∷ 10 ∷ []) ≡ s ++ c ∷ []
unfolding right_strip
right_strip-line [] c h = unfold is_space in rw h refl
right_strip-line (d ∷ []) c h = rw (right_strip-line [] c h, right_strip) refl
right_strip-line (d ∷ e ∷ s) c h = rw (right_strip-line (e ∷ s) c h, right_strip) refl

-- A line that has no white space at its ends but its newline.
pub strip-line :
    (b : ℕ) (s : Text) (c : ℕ)
    → is_space b ≡ false
    → is_space c ≡ false
    → strip (b ∷ s ++ c ∷ 10 ∷ []) ≡ b ∷ s ++ c ∷ []
unfolding strip left_strip
strip-line b s c h k = rw h (right_strip-line (b ∷ s) c k)

-- A text that ends with another is some text with that one behind it.
pub ends_with-append : (s p : Text) → ends_with s p ≡ true → (front : Text) × (s ≡ front ++ p)
unfolding ends_with
ends_with-append [] p h = ([], (text_eq_iff [] p).0 h)
ends_with-append (c ∷ s) p h = elim (Bool-cases (text_eq (c ∷ s) p)) [
  | inl same ↦ ([], (text_eq_iff (c ∷ s) p).0 same)
  | inr differ ↦
      let (front, e) = ends_with-append s p (rw differ at h) in (c ∷ front, ap (λ t. c ∷ t) e)
]

ends_with_self : (p : Text) → ends_with p p ≡ true
unfolding ends_with
ends_with_self [] = refl
ends_with_self (c ∷ p) = rw ((text_eq_iff (c ∷ p) (c ∷ p)).1 refl)

pub append-ends_with : (front p : Text) → ends_with (front ++ p) p ≡ true
unfolding ends_with
append-ends_with [] p = ends_with_self p
append-ends_with (c ∷ front) p = ground (arith, append-ends_with front p)

pub left_strip-append :
    (blank s : Text) → All (λ c. is_space c ≡ true) blank → left_strip (blank ++ s) ≡ left_strip s
unfolding left_strip
left_strip-append [] s h = refl
left_strip-append (c ∷ blank) s h = rw h.0 (left_strip-append blank s h.1)

-- White space before a text without any.
pub strip-append :
    (blank s : Text) → All (λ c. is_space c ≡ true) blank → NoSpace s → strip (blank ++ s) ≡ s
unfolding strip
strip-append blank s h k = ap right_strip (left_strip-append blank s h) ∙ strip-NoSpace s k
