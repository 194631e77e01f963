-- ===== src/Py/Number.antt =====
-- `str(n)`, `hex(n)`, `int(s)` and `int(s, 16)`.
mod Digits
unfoldable pub use Digits.{digits, digit_char, digit_value, value}
pub use Digits.{
  Leading, digits-Leading, IsDigit, digit_value-digit_char, digit_value-IsDigit, digits-IsDigit,
  digits-All, digits-ne-nil, value-digits,
}
use unikernel_syscall_monito.Base.{
  ℕ, suc, ◌+◌, ◌-◌, ◌*◌, ◌≡◌, ◌≢◌, refl, ap, ◌∙◌, Bool, true, false, ◌&&◌, ◌||◌, Option, none, some,
  List, [], ◌∷◌, ◌++◌, arith, ◌==◌, between, All, if◌then◌else◌,
}
use unikernel_syscall_monito.Base.Int.{ℤ, pos, negsuc, negate}
use unikernel_syscall_monito.Base.Text.{Text, codes}
use unikernel_syscall_monito.Py.Strip.{strip, is_space, NoSpace, strip-NoSpace}

-- `str(n)`
unfoldable pub str : ℤ → Text
str (pos n) = digits 10 n
str (negsuc n) = b'-' ∷ digits 10 (suc n)

-- `hex(n)`
unfoldable pub hex : ℤ → Text
hex (pos n) = b'0' ∷ b'x' ∷ digits 16 n
hex (negsuc n) = b'-' ∷ b'0' ∷ b'x' ∷ digits 16 (suc n)

-- The digits of `int(s)`: a single underscore may stand between two digits. The flag tells
-- whether the character before was a digit.
unfoldable pub scan : Bool → ℕ → Text → Option ℕ
scan true acc [] = some acc
scan false acc [] = none
scan after_digit acc (c ∷ s) =
    let next = scan true (acc * 10 + (c - b'0')) s in
    let skip = scan false acc s in
    if between b'0' b'9' c then next else if (c == b'_') && after_digit then skip else none

-- The sign and the digits.
unfoldable pub signed : Text → Option ℤ
signed [] = none
signed (c ∷ s) =
    if c == b'-'
    then (elim (scan false 0 s) [ none ↦ none | some n ↦ some (negate n) ])
    else if c == b'+'
    then (elim (scan false 0 s) [ none ↦ none | some n ↦ some (pos n) ])
    else (elim (scan false 0 (c ∷ s)) [ none ↦ none | some n ↦ some (pos n) ])

-- `int(s)`; `none` is a `ValueError`. Digits outside ASCII are not accepted.
unfoldable pub int : Text → Option ℤ
int s = signed (strip s)

scan-IsDigit : (s : Text) (acc : ℕ) → All IsDigit s → scan true acc s ≡ some (value 10 acc s)
unfolding scan value
scan-IsDigit [] acc h = refl
scan-IsDigit (c ∷ s) acc h = rw h.0 (
    scan-IsDigit s (acc * 10 + (c - b'0')) h.1
    ∙ ap (λ d. some (value 10 (acc * 10 + d) s)) (digit_value-IsDigit c h.0))

scan_start : (s : Text) → s ≢ [] → All IsDigit s → scan false 0 s ≡ some (value 10 0 s)
scan_start [] ne h = absurd (ne refl)
scan_start (c ∷ s) ne h = scan_first c s h ∙ scan-IsDigit (c ∷ s) 0 h
  where
    scan_first :
        (c : ℕ) (s : Text) → All IsDigit (c ∷ s) → scan false 0 (c ∷ s) ≡ scan true 0 (c ∷ s)
    scan_first c s h = unfold scan in rw h.0

scan-digits : (n : ℕ) → scan false 0 (digits 10 n) ≡ some n
scan-digits n =
    scan_start (digits 10 n) (digits-ne-nil 10 n) (digits-IsDigit n)
    ∙ ap some (value-digits 10 n (omega arith) (omega arith))

scan_empty : scan false 0 [] ≡ none
unfolding scan
scan_empty = refl

-- No sign is read off a text of digits.
signed-IsDigit :
    (s : Text) (n : ℕ) → All IsDigit s → scan false 0 s ≡ some n → signed s ≡ some (pos n)
unfolding signed
signed-IsDigit [] n h e = cc (e, scan_empty)
signed-IsDigit (c ∷ s) n h e = rw e (ground arith)

IsDigit-NoSpace : (s : Text) → All IsDigit s → NoSpace s
unfolding is_space
IsDigit-NoSpace [] h = tt
IsDigit-NoSpace (c ∷ s) h = (ground arith, IsDigit-NoSpace s h.1)

pub str-NoSpace : (n : ℤ) → NoSpace (str n)
unfolding str is_space
str-NoSpace (pos n) = IsDigit-NoSpace _ (digits-IsDigit n)
str-NoSpace (negsuc n) = (ground arith, IsDigit-NoSpace _ (digits-IsDigit (suc n)))

signed-str : (n : ℤ) → signed (str n) ≡ some n
signed-str (pos n) = unfold str in signed-IsDigit (digits 10 n) n (digits-IsDigit n) (scan-digits n)
signed-str (negsuc n) = unfold str signed in rw (scan-digits (suc n))

-- `int(str(n))` is `n`, for every integer.
pub int-str : (n : ℤ) → int (str n) ≡ some n
unfolding int
int-str n = rw (strip-NoSpace (str n) (str-NoSpace n)) (signed-str n)
