-- ===== src/Gdbstub/Hmp/Ansi.antt =====
-- `ANSI_ESCAPE_RE.sub(b"", raw)`: an escape, a bracket, digits and semicolons, and a letter.
use unikernel_syscall_monito.Base.{
  ℕ, zero, suc, ◌≡◌, ◌≢◌, refl, ap, ◌∙◌, Bool, true, ◌||◌, Option, none, some, List, [], ◌∷◌, ◌++◌,
  arith, append_assoc, ◌==◌, between, if◌then◌else◌, All, length,
}
use unikernel_syscall_monito.Base.Text.{Text}
use unikernel_syscall_monito.Py.Split.{Lacks}

abbrev pub is_parameter : ℕ → Bool
is_parameter c = between b'0' b'9' c || c == b';'

abbrev pub is_letter : ℕ → Bool
is_letter c = between b'A' b'Z' c || between b'a' b'z' c

-- How many characters the parameters and the letter take.
unfoldable pub parameters_length : Text → Option ℕ
parameters_length [] = none
parameters_length (c ∷ s) =
    if is_letter c
    then some 1
    else if is_parameter c
    then (elim (parameters_length s) [ none ↦ none | some n ↦ some (suc n) ])
    else none

-- How many characters behind an escape belong to the sequence, if there is one.
unfoldable pub sequence_length : Text → Option ℕ
unfolding parameters_length
sequence_length [] = none
sequence_length (c ∷ s) =
    if c == b'[' then (elim (parameters_length s) [ none ↦ none | some n ↦ some (suc n) ]) else none

abbrev found : Option ℕ → Text → (ℕ → Text) → Text
found none kept skipped = kept
found (some n) kept skipped = skipped n

-- The first argument counts the characters of a sequence that are still to be passed over.
unfoldable pub strip_from : ℕ → Text → Text
strip_from n [] = []
strip_from (suc n) (c ∷ s) = strip_from n s
strip_from zero (c ∷ s) =
    let kept = c ∷ strip_from zero s in
    if c == 27 then found (sequence_length s) kept (λ n. strip_from n s) else kept

unfoldable pub strip_ansi : Text → Text
unfolding strip_from
strip_ansi s = strip_from 0 s

-- What a terminal shows: characters, and sequences that move the cursor.
pub data Piece : Type 0 where
  char : ℕ → Piece
  sequence : Text → ℕ → Piece

abbrev pub render : List Piece → Text
render [] = []
render (char c ∷ ps) = c ∷ render ps
render (sequence parameters letter ∷ ps) = 27 ∷ b'[' ∷ (parameters ++ letter ∷ render ps)

abbrev pub shown : List Piece → Text
shown [] = []
shown (char c ∷ ps) = c ∷ shown ps
shown (sequence parameters letter ∷ ps) = shown ps

-- A character is no escape, and a sequence is well formed.
abbrev pub IsPiece : Piece → Type 0
IsPiece (char c) = c ≢ 27
IsPiece (sequence parameters letter) =
    All (λ c. is_parameter c ≡ true) parameters × (is_letter letter ≡ true)

parameters_length_lem :
    (parameters : Text) (letter : ℕ) (s : Text)
    → All (λ c. is_parameter c ≡ true) parameters
    → is_letter letter ≡ true
    → parameters_length (parameters ++ letter ∷ s) ≡ some (suc (length parameters))
unfolding parameters_length
parameters_length_lem [] letter s h l = rw l
parameters_length_lem (c ∷ ps) letter s h l =
    ground (arith, parameters_length_lem ps letter s h.1 l)

strip_from_passed :
    (front : Text) (letter : ℕ) (s : Text)
    → strip_from (suc (length front)) (front ++ letter ∷ s) ≡ strip_from 0 s
unfolding strip_from
strip_from_passed [] letter s = refl
strip_from_passed (c ∷ front) letter s = strip_from_passed front letter s

strip_from_sequence :
    (s : Text) (n : ℕ)
    → parameters_length s ≡ some n
    → strip_from 0 (27 ∷ b'[' ∷ s) ≡ strip_from n s
unfolding strip_from sequence_length
strip_from_sequence s n h = rw h

-- The sequences go, and the other characters stay.
pub strip_ansi-render :
    (ps : List Piece) (s : Text)
    → All IsPiece ps
    → strip_ansi (render ps ++ s) ≡ shown ps ++ strip_ansi s
unfolding strip_ansi
strip_ansi-render [] s h = refl
strip_ansi-render (char c ∷ ps) s h = ground (arith, strip_ansi-render ps s h.1)
strip_ansi-render (sequence parameters letter ∷ ps) s ((p, l), h) =
    ap (λ r. strip_from 0 (27 ∷ b'[' ∷ r)) (append_assoc parameters (letter ∷ render ps) s)
    ∙ strip_from_sequence (parameters ++ letter ∷ (render ps ++ s)) (suc (length parameters))
        (parameters_length_lem parameters letter (render ps ++ s) p l)
    ∙ strip_from_passed parameters letter (render ps ++ s)
    ∙ strip_ansi-render ps s h

pub strip_ansi_plain : (s : Text) → Lacks 27 s → strip_ansi s ≡ s
unfolding strip_ansi
strip_ansi_plain [] h = refl
strip_ansi_plain (c ∷ s) h = ground (arith, strip_ansi_plain s h.1)
