-- ===== src/Py/Hex.antt =====
-- `int(s, 16)`.
pub mod RoundTrip
use unikernel_syscall_monito.Base.{
  ℕ, zero, suc, ◌+◌, ◌*◌, ◌<◌, ◌≡◌, ◌≢◌, refl, ap, ◌∙◌, Bool, true, false, ◌&&◌, ◌||◌, Option, none,
  some, [], ◌∷◌, ◌++◌, arith, ◌==◌, between, All, All-append, if◌then◌else◌, Bool-cases, inl, inr,
}
use unikernel_syscall_monito.Base.Int.{ℤ, pos, negate}
use unikernel_syscall_monito.Base.Text.{Text}
use unikernel_syscall_monito.Py.Number.{
  digits, digit_char, digit_value, value, digits-All, digits-ne-nil, value-digits,
}
use unikernel_syscall_monito.Py.Strip.{strip, is_space, NoSpace, strip-NoSpace}

unfoldable pub is_hex_digit : ℕ → Bool
is_hex_digit c = between b'0' b'9' c || between b'a' b'f' c || between b'A' b'F' c

-- The digits: a single underscore may stand between two of them. The flag tells whether the
-- character before was a digit, or the prefix.
unfoldable pub scan_hex : Bool → ℕ → Text → Option ℕ
unfolding is_hex_digit
scan_hex true acc [] = some acc
scan_hex false acc [] = none
scan_hex after_digit acc (c ∷ s) =
    let next = scan_hex true (acc * 16 + digit_value c) s in
    let skip = scan_hex false acc s in
    if is_hex_digit c then next else if (c == b'_') && after_digit then skip else none

-- Behind `0x`, where an underscore may come first.
unfoldable pub prefixed : Text → Option ℕ
prefixed [] = none
prefixed (c ∷ s) = scan_hex true 0 (c ∷ s)

-- The number without its sign.
unfoldable pub magnitude : Text → Option ℕ
unfolding scan_hex prefixed
magnitude [] = none
magnitude (c ∷ []) = scan_hex false 0 (c ∷ [])
magnitude (c ∷ d ∷ s) =
    if (c == b'0') && (d == b'x' || d == b'X') then prefixed s else scan_hex false 0 (c ∷ d ∷ s)

abbrev with_sign : (ℕ → ℤ) → Option ℕ → Option ℤ
with_sign f none = none
with_sign f (some n) = some (f n)

unfoldable pub signed_hex : Text → Option ℤ
unfolding magnitude
signed_hex [] = none
signed_hex (c ∷ s) =
    if c == b'-'
    then with_sign negate (magnitude s)
    else if c == b'+'
    then with_sign pos (magnitude s)
    else with_sign pos (magnitude (c ∷ s))

-- `none` is a `ValueError`. Digits outside ASCII are not accepted.
unfoldable pub int16 : Text → Option ℤ
unfolding signed_hex
int16 s = signed_hex (strip s)

abbrev pub IsHexDigit : ℕ → Type 0
IsHexDigit c = is_hex_digit c ≡ true

pub scan_hex-IsHexDigit :
    (s : Text) (acc : ℕ) → All IsHexDigit s → scan_hex true acc s ≡ some (value 16 acc s)
unfolding scan_hex value
scan_hex-IsHexDigit [] acc h = refl
scan_hex-IsHexDigit (c ∷ s) acc h = rw h.0 (scan_hex-IsHexDigit s (acc * 16 + digit_value c) h.1)

scan_hex_start :
    (c : ℕ) (s : Text)
    → All IsHexDigit (c ∷ s)
    → scan_hex false 0 (c ∷ s) ≡ some (value 16 0 (c ∷ s))
unfolding scan_hex value
scan_hex_start c s h = rw h.0 (scan_hex-IsHexDigit s (0 * 16 + digit_value c) h.1)

no_prefix : (d : ℕ) → IsHexDigit d → (d == b'x' || d == b'X') ≡ false
unfolding is_hex_digit
no_prefix d h = ground arith

no_sign : (c : ℕ) → IsHexDigit c → ((c == b'-') ≡ false) × ((c == b'+') ≡ false)
unfolding is_hex_digit
no_sign c h = (ground arith, ground arith)

magnitude-IsHexDigit : (s : Text) → s ≢ [] → All IsHexDigit s → magnitude s ≡ some (value 16 0 s)
unfolding magnitude
magnitude-IsHexDigit [] ne h = absurd (ne refl)
magnitude-IsHexDigit (c ∷ []) ne h = scan_hex_start c [] h
magnitude-IsHexDigit (c ∷ d ∷ s) ne h =
    let other = no_prefix d h.1.0 in
    elim (Bool-cases (c == b'0')) [
      | inl z ↦ rw (z, other) (scan_hex_start c (d ∷ s) h)
      | inr z ↦ rw z (scan_hex_start c (d ∷ s) h)
    ]

signed_hex-IsHexDigit :
    (s : Text) → s ≢ [] → All IsHexDigit s → signed_hex s ≡ some (pos (value 16 0 s))
unfolding signed_hex
signed_hex-IsHexDigit [] ne h = absurd (ne refl)
signed_hex-IsHexDigit (c ∷ s) ne h =
    let (minus, plus) = no_sign c h.0 in rw (minus, plus, magnitude-IsHexDigit (c ∷ s) ne h) refl

pub IsHexDigit-NoSpace : (s : Text) → All IsHexDigit s → NoSpace s
unfolding is_hex_digit is_space
IsHexDigit-NoSpace [] h = tt
IsHexDigit-NoSpace (c ∷ s) h = (ground arith, IsHexDigit-NoSpace s h.1)

-- Leading zeros, as in an address of a fixed width.
unfoldable pub zeros : ℕ → Text
zeros zero = []
zeros (suc k) = b'0' ∷ zeros k

zeros-IsHexDigit : (k : ℕ) → All IsHexDigit (zeros k)
unfolding zeros is_hex_digit
zeros-IsHexDigit zero = tt
zeros-IsHexDigit (suc k) = (refl, zeros-IsHexDigit k)

value-zeros : (k : ℕ) (s : Text) → value 16 0 (zeros k ++ s) ≡ value 16 0 s
unfolding zeros value digit_value
value-zeros zero s = refl
value-zeros (suc k) s = value-zeros k s

pub digit_char-IsHexDigit : (d : ℕ) → d < 16 → IsHexDigit (digit_char d)
unfolding is_hex_digit digit_char
digit_char-IsHexDigit d h = ground arith

-- An address as the tools print it.
unfoldable pub padded : ℕ → ℕ → Text
padded k n = zeros k ++ digits 16 n

pub padded-IsHexDigit : (k n : ℕ) → All IsHexDigit (padded k n)
unfolding padded
padded-IsHexDigit k n =
    All-append IsHexDigit (zeros k) (digits 16 n) (zeros-IsHexDigit k)
      (digits-All IsHexDigit 16 (omega arith) digit_char-IsHexDigit n)

pub padded-ne-nil : (k n : ℕ) → padded k n ≢ []
unfolding padded zeros
padded-ne-nil zero n = digits-ne-nil 16 n
padded-ne-nil (suc k) n = λ e. cc e

value-padded : (k n : ℕ) → value 16 0 (padded k n) ≡ n
unfolding padded
value-padded k n = value-zeros k (digits 16 n) ∙ value-digits 16 n (omega arith) (omega arith)

-- An address is read back.
pub int16-padded : (k n : ℕ) → int16 (padded k n) ≡ some (pos n)
unfolding int16
int16-padded k n =
    ap signed_hex
      (strip-NoSpace (padded k n) (IsHexDigit-NoSpace (padded k n) (padded-IsHexDigit k n)))
    ∙ signed_hex-IsHexDigit (padded k n) (padded-ne-nil k n) (padded-IsHexDigit k n)
    ∙ ap (λ m. some (pos m)) (value-padded k n)
