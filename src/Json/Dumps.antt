-- ===== src/Json/Dumps.antt =====
-- `json.dumps(value)`, with its defaults: ASCII output, `", "` and `": "` as separators.
use unikernel_syscall_monito.Base.{
  ℕ, ◌+◌, ◌-◌, ◌/◌, ◌%◌, [], ◌∷◌, ◌++◌, ◌==◌, ltb, between, if◌then◌else◌,
}
use unikernel_syscall_monito.Base.Text.{Text, codes}
use unikernel_syscall_monito.Json.Value.{
  Json, null, bool, int, real, str, arr, obj, Items, nil, item, Fields, end, field, Real,
}
use unikernel_syscall_monito.Py.Number
use unikernel_syscall_monito.Py.Number.{digit_char}

-- `\uXXXX`
unfoldable pub unicode_escape : ℕ → Text
unfolding digit_char
unicode_escape n =
    b'\\'
    ∷ b'u'
    ∷ digit_char (n / 4096 % 16)
    ∷ digit_char (n / 256 % 16)
    ∷ digit_char (n / 16 % 16)
    ∷ digit_char (n % 16)
    ∷ []

unfoldable pub escape_char : ℕ → Text
escape_char c =
    if c == b'"'
    then b'\\' ∷ b'"' ∷ []
    else if c == b'\\'
    then b'\\' ∷ b'\\' ∷ []
    else if between 32 126 c
    then c ∷ []
    else if c == 10
    then codes "\\n"
    else if c == 13
    then codes "\\r"
    else if c == 9
    then codes "\\t"
    else if c == 12
    then codes "\\f"
    else if c == 8
    then codes "\\b"
    else if ltb c 65536
    then unicode_escape c
    else unicode_escape (55296 + (c - 65536) / 1024) ++ unicode_escape (56320 + (c - 65536) % 1024)

unfoldable pub escape : Text → Text
unfolding escape_char
escape [] = []
escape (c ∷ s) = escape_char c ++ escape s

unfoldable pub quote : Text → Text
unfolding escape
quote s = b'"' ∷ (escape s ++ b'"' ∷ [])

abbrev pub point : Text → Text
point [] = []
point (c ∷ s) = b'.' ∷ c ∷ s

unfoldable pub dumps_real : Real → Text
dumps_real r = (if r.negative then b'-' ∷ [] else []) ++ r.whole ++ point r.fraction ++ r.exponent

unfoldable mutual
  unfolding quote dumps_real Number.str

  pub dumps : Json → Text
  dumps null = codes "null"
  dumps (bool b) = if b then codes "true" else codes "false"
  dumps (int n) = Number.str n
  dumps (real r) = dumps_real r
  dumps (str s) = quote s
  dumps (arr items) = b'[' ∷ dumps_items items
  dumps (obj fields) = b'{' ∷ dumps_fields fields

  -- What stands between the brackets, with the closing one.
  pub dumps_items : Items → Text
  dumps_items nil = b']' ∷ []
  dumps_items (item v nil) = dumps v ++ b']' ∷ []
  dumps_items (item v (item w rest)) = dumps v ++ b',' ∷ b' ' ∷ dumps_items (item w rest)

  pub dumps_fields : Fields → Text
  dumps_fields end = b'}' ∷ []
  dumps_fields (field k v end) = quote k ++ b':' ∷ b' ' ∷ (dumps v ++ b'}' ∷ [])
  dumps_fields (field k v (field k' w rest)) =
      quote k ++ b':' ∷ b' ' ∷ (dumps v ++ b',' ∷ b' ' ∷ dumps_fields (field k' w rest))
