-- ===== src/Json/Loads/Strings.antt =====
-- The texts of JSON, from behind the opening quote.
use unikernel_syscall_monito.Base.{
  ℕ, zero, suc, ◌+◌, ◌-◌, ◌*◌, Bool, ◌&&◌, ◌||◌, Option, none, some, [], ◌∷◌, ◌==◌, ltb, between,
  if◌then◌else◌,
}
use unikernel_syscall_monito.Base.Text.{Text}
use unikernel_syscall_monito.Py.Number.{digit_value}

-- Outside an escape, behind a backslash, or with that many hexadecimal digits to come.
pub data Mode : Type 0 where
  plain escaped : Mode
  hexadecimal : ℕ → ℕ → Mode

-- The character of a short escape.
unfoldable pub short_escape : ℕ → Option ℕ
short_escape c =
    if c == b'"'
    then some b'"'
    else if c == b'\\'
    then some b'\\'
    else if c == b'/'
    then some b'/'
    else if c == b'b'
    then some 8
    else if c == b'f'
    then some 12
    else if c == b'n'
    then some 10
    else if c == b'r'
    then some 13
    else if c == b't'
    then some 9
    else none

abbrev pub is_hex : ℕ → Bool
is_hex c = between b'0' b'9' c || between b'a' b'f' c || between b'A' b'F' c

abbrev pub then_char : ℕ → Option (Text × Text) → Option (Text × Text)
then_char c none = none
then_char c (some (s, r)) = some (c ∷ s, r)

-- The text up to the closing quote, and what stands behind it.
unfoldable pub scan_string : Mode → Text → Option (Text × Text)
scan_string mode [] = none
scan_string plain (c ∷ s) =
    let more = scan_string plain s in
    let escape = scan_string escaped s in
    if c == b'"'
    then some ([], s)
    else if c == b'\\'
    then escape
    else if ltb c 32
    then none
    else then_char c more
scan_string escaped (c ∷ s) =
    let more = scan_string plain s in
    let unicode = scan_string (hexadecimal 3 0) s in
    if c == b'u'
    then unicode
    else (elim (short_escape c) [ none ↦ none | some d ↦ then_char d more ])
scan_string (hexadecimal zero acc) (c ∷ s) =
    let more = scan_string plain s in
    if is_hex c then then_char (acc * 16 + digit_value c) more else none
scan_string (hexadecimal (suc n) acc) (c ∷ s) =
    let more = scan_string (hexadecimal n (acc * 16 + digit_value c)) s in
    if is_hex c then more else none

abbrev pub is_high : ℕ → Bool
is_high c = between 55296 56319 c

abbrev pub is_low : ℕ → Bool
is_low c = between 56320 57343 c

-- A pair of surrogates is one character.
unfoldable pub join_surrogates : Text → Text
join_surrogates [] = []
join_surrogates (c ∷ []) = c ∷ []
join_surrogates (c ∷ d ∷ s) =
    let pair = join_surrogates s in
    let rest = join_surrogates (d ∷ s) in
    if is_high c && is_low d then (65536 + (c - 55296) * 1024 + (d - 56320)) ∷ pair else c ∷ rest

unfoldable pub read_string : Text → Option (Text × Text)
unfolding scan_string join_surrogates short_escape
read_string s = elim (scan_string plain s) [
  | none ↦ none
  | some (t, r) ↦ some (join_surrogates t, r)
]
