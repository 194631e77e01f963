-- ===== src/Json/RoundTrip/Strings.antt =====
-- The texts: every character that is no surrogate survives its escape.
use unikernel_syscall_monito.Base.{
  ℕ, zero, suc, ◌+◌, ◌-◌, ◌*◌, ◌/◌, ◌%◌, ◌≤◌, ◌<◌, ◌≡◌, refl, ap, ◌∙◌, ◌⊎◌, inl, inr, true, false,
  Bool-cases, Option, none, some, [], ◌∷◌, ◌++◌, arith, ltb, tests, if◌then◌else◌, All,
  append_assoc, between, ◌==◌,
}
use unikernel_syscall_monito.Base.Text.{Text}
use unikernel_syscall_monito.Json.Dumps.{unicode_escape, escape_char, escape}
use unikernel_syscall_monito.Json.Loads.Strings.{
  plain, hexadecimal, short_escape, is_hex, then_char, scan_string, is_high, is_low,
  join_surrogates, read_string,
}
use unikernel_syscall_monito.Py.Number.{digit_char, digit_value-digit_char}

-- A character of Unicode that is no surrogate.
abbrev pub IsScalar : ℕ → Type 0
IsScalar c = (c < 1114112) × ((c < 55296) ⊎ (57343 < c))

-- The units that stand for a character, of which a large one has two.
abbrev units : ℕ → Text
units c =
    if ltb c 65536 then c ∷ [] else (55296 + (c - 65536) / 1024) ∷ (56320 + (c - 65536) % 1024) ∷ []

all_units : Text → Text
all_units [] = []
all_units (c ∷ s) = units c ++ all_units s

abbrev prepend : Text → Option (Text × Text) → Option (Text × Text)
prepend us none = none
prepend us (some (s, r)) = some (us ++ s, r)

is_hex-digit_char : (k : ℕ) → k < 16 → is_hex (digit_char k) ≡ true
unfolding digit_char
is_hex-digit_char k h = ground arith

-- Four hexadecimal digits are a number below 65536.
four_digits :
    (n : ℕ)
    → n < 65536
    → (((0 * 16 + n / 4096 % 16) * 16 + n / 256 % 16) * 16 + n / 16 % 16) * 16 + n % 16 ≡ n
four_digits n h = omega arith

scan-hex :
    (k n acc : ℕ) (s : Text)
    → k < 16
    → scan_string (hexadecimal (suc n) acc) (digit_char k ∷ s)
      ≡ scan_string (hexadecimal n (acc * 16 + k)) s
unfolding scan_string
scan-hex k n acc s h = rw (is_hex-digit_char k h, digit_value-digit_char k h) refl

scan-last_hex :
    (k acc : ℕ) (s : Text)
    → k < 16
    → scan_string (hexadecimal zero acc) (digit_char k ∷ s)
      ≡ then_char (acc * 16 + k) (scan_string plain s)
unfolding scan_string
scan-last_hex k acc s h = rw (is_hex-digit_char k h, digit_value-digit_char k h) refl

scan-opening : (s : Text) → scan_string plain (b'\\' ∷ b'u' ∷ s) ≡ scan_string (hexadecimal 3 0) s
unfolding scan_string
scan-opening s = refl

scan-unicode :
    (n : ℕ) (s : Text)
    → n < 65536
    → scan_string plain (unicode_escape n ++ s) ≡ then_char n (scan_string plain s)
unfolding unicode_escape
scan-unicode n s h =
    scan-opening _
    ∙ scan-hex (n / 4096 % 16) 2 0 _ (omega arith)
    ∙ scan-hex (n / 256 % 16) 1 _ _ (omega arith)
    ∙ scan-hex (n / 16 % 16) 0 _ _ (omega arith)
    ∙ scan-last_hex (n % 16) _ s (omega arith)
    ∙ ap (λ k. then_char k (scan_string plain s)) (four_digits n h)

then_two :
    (a b : ℕ) (o : Option (Text × Text)) → then_char a (then_char b o) ≡ prepend (a ∷ b ∷ []) o
then_two a b none = refl
then_two a b (some (s, r)) = refl

then_one : (c : ℕ) (o : Option (Text × Text)) → then_char c o ≡ prepend (c ∷ []) o
then_one c none = refl
then_one c (some (s, r)) = refl

scan-large :
    (c : ℕ) (s : Text)
    → 65536 ≤ c
    → c < 1114112
    → scan_string plain (
        (unicode_escape (55296 + (c - 65536) / 1024) ++ unicode_escape (56320 + (c - 65536) % 1024))
        ++ s)
      ≡ prepend
          ((55296 + (c - 65536) / 1024) ∷ (56320 + (c - 65536) % 1024) ∷ [])
          (scan_string plain s)
scan-large c s lo hi =
    ap (scan_string plain) (append_assoc (unicode_escape _) (unicode_escape _) s)
    ∙ scan-unicode _ _ (omega arith)
    ∙ ap (then_char _) (scan-unicode _ s (omega arith))
    ∙ then_two _ _ (scan_string plain s)

-- A character that stands for itself.
scan-printable :
    (c : ℕ) (s : Text)
    → (c == b'"') ≡ false
    → (c == b'\\') ≡ false
    → between 32 126 c ≡ true
    → scan_string plain (c ∷ s) ≡ then_char c (scan_string plain s)
unfolding scan_string
scan-printable c s q b p = ground arith

-- A character with a short escape.
scan-short :
    (e c : ℕ) (s : Text)
    → (e == b'u') ≡ false
    → short_escape e ≡ some c
    → scan_string plain (b'\\' ∷ e ∷ s) ≡ then_char c (scan_string plain s)
unfolding scan_string
scan-short e c s u h = rw (u, h) refl

scan-escape_char :
    (c : ℕ) (s : Text)
    → IsScalar c
    → scan_string plain (escape_char c ++ s) ≡ prepend (units c) (scan_string plain s)
unfolding escape_char short_escape
scan-escape_char c s h = ground (
  arith,
  scan-short b'"' b'"' s,
  scan-short b'\\' b'\\' s,
  scan-short b'n' 10 s,
  scan-short b'r' 13 s,
  scan-short b't' 9 s,
  scan-short b'f' 12 s,
  scan-short b'b' 8 s,
  scan-printable c s,
  scan-unicode c s,
  scan-large c s,
  then_one c (scan_string plain s),
)

prepend-some :
    (us s r : Text) (o : Option (Text × Text)) → o ≡ some (s, r) → prepend us o ≡ some (us ++ s, r)
prepend-some us s r o h = rw h refl

scan-escape :
    (s rest : Text)
    → All IsScalar s
    → scan_string plain (escape s ++ b'"' ∷ rest) ≡ some (all_units s, rest)
unfolding escape all_units
scan-escape [] rest h = unfold scan_string in refl
scan-escape (c ∷ s) rest h =
    ap (scan_string plain) (append_assoc (escape_char c) (escape s) (b'"' ∷ rest))
    ∙ scan-escape_char c (escape s ++ b'"' ∷ rest) h.0
    ∙ prepend-some (units c) (all_units s) rest _ (scan-escape s rest h.1)

join-low : (c : ℕ) (t : Text) → is_high c ≡ false → join_surrogates (c ∷ t) ≡ c ∷ join_surrogates t
unfolding join_surrogates
join-low c [] h = refl
join-low c (d ∷ t) h = rw h refl

join-pair :
    (c d : ℕ) (t : Text)
    → is_high c ≡ true
    → is_low d ≡ true
    → join_surrogates (c ∷ d ∷ t) ≡ (65536 + (c - 55296) * 1024 + (d - 56320)) ∷ join_surrogates t
unfolding join_surrogates
join-pair c d t h k = rw (h, k) refl

join-large :
    (c : ℕ) (t : Text)
    → 65536 ≤ c
    → c < 1114112
    → join_surrogates ((55296 + (c - 65536) / 1024) ∷ (56320 + (c - 65536) % 1024) ∷ t)
      ≡ c ∷ join_surrogates t
join-large c t lo hi =
    join-pair (55296 + (c - 65536) / 1024) (56320 + (c - 65536) % 1024) t (ground arith)
      (ground arith)
    ∙ ap (λ d. d ∷ join_surrogates t) (omega arith)

join-units :
    (c : ℕ) (t : Text) → IsScalar c → join_surrogates (units c ++ t) ≡ c ∷ join_surrogates t
join-units c t h = elim (Bool-cases (ltb c 65536)) [
  | inl small ↦ rw small (join-low c t (ground arith))
  | inr large ↦ rw large (join-large c t (omega (tests, large)) h.0)
]

join-all_units : (s : Text) → All IsScalar s → join_surrogates (all_units s) ≡ s
unfolding all_units
join-all_units [] h = unfold join_surrogates in refl
join-all_units (c ∷ s) h = join-units c (all_units s) h.0 ∙ ap (λ t. c ∷ t) (join-all_units s h.1)

-- An escaped text with a quotation mark behind it is read back, and what follows is left.
pub read_string-escape :
    (s rest : Text) → All IsScalar s → read_string (escape s ++ b'"' ∷ rest) ≡ some (s, rest)
unfolding read_string
read_string-escape s rest h =
    rw (scan-escape s rest h, read_string) (ap (λ t. some (t, rest)) (join-all_units s h))
