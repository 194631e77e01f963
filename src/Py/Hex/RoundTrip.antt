-- ===== src/Py/Hex/RoundTrip.antt =====
-- `int(hex(n), 16)`.
use unikernel_syscall_monito.Base.{ℕ, suc, ◌≡◌, ◌≢◌, refl, ap, ◌∙◌, some, [], ◌∷◌, arith, All}
use unikernel_syscall_monito.Base.Int.{ℤ, pos, negsuc}
use unikernel_syscall_monito.Base.Text.{Text}
use unikernel_syscall_monito.Py.Number.{hex, digits, value, digits-All, digits-ne-nil, value-digits}
use unikernel_syscall_monito.Py.Strip.{NoSpace, strip-NoSpace, is_space}
use unikernel_syscall_monito.Py.Hex.{
  prefixed, magnitude, signed_hex, int16, IsHexDigit, IsHexDigit-NoSpace, scan_hex-IsHexDigit,
  digit_char-IsHexDigit,
}

digits-IsHexDigit : (n : ℕ) → All IsHexDigit (digits 16 n)
digits-IsHexDigit n = digits-All IsHexDigit 16 (omega arith) digit_char-IsHexDigit n

prefixed-IsHexDigit : (s : Text) → s ≢ [] → All IsHexDigit s → prefixed s ≡ some (value 16 0 s)
unfolding prefixed
prefixed-IsHexDigit [] ne h = absurd (ne refl)
prefixed-IsHexDigit (c ∷ s) ne h = scan_hex-IsHexDigit (c ∷ s) 0 h

prefixed-digits : (n : ℕ) → prefixed (digits 16 n) ≡ some n
prefixed-digits n =
    prefixed-IsHexDigit (digits 16 n) (digits-ne-nil 16 n) (digits-IsHexDigit n)
    ∙ ap some (value-digits 16 n (omega arith) (omega arith))

hex-NoSpace : (n : ℤ) → NoSpace (hex n)
unfolding hex is_space
hex-NoSpace (pos n) = (ground arith, (ground arith, IsHexDigit-NoSpace _ (digits-IsHexDigit n)))
hex-NoSpace (negsuc n) =
    (ground arith, (ground arith, (ground arith, IsHexDigit-NoSpace _ (digits-IsHexDigit (suc n)))))

signed_hex-hex : (n : ℤ) → signed_hex (hex n) ≡ some n
unfolding signed_hex hex magnitude
signed_hex-hex (pos n) = rw (prefixed-digits n) refl
signed_hex-hex (negsuc n) = rw (prefixed-digits (suc n)) refl

-- `int(hex(n), 16)` is `n`, for every integer.
pub int16-hex : (n : ℤ) → int16 (hex n) ≡ some n
unfolding int16
int16-hex n = ap signed_hex (strip-NoSpace (hex n) (hex-NoSpace n)) ∙ signed_hex-hex n
