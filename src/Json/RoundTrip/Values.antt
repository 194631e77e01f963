-- ===== src/Json/RoundTrip/Values.antt =====
-- Whole values, by induction on them; the fuel of the reader is the length of what was written.
use unikernel_syscall_monito.Base.{
  ℕ, zero, suc, ◌≤◌, ◌<◌, ◌≡◌, refl, ap, sym, ◌∙◌, Bool, true, false, some, [], ◌∷◌, ◌++◌, arith,
  append_assoc, append-nil, length, length-append,
}
use unikernel_syscall_monito.Base.Int.{ℤ}
use unikernel_syscall_monito.Base.Text.{Text}
use unikernel_syscall_monito.Json.Value.{
  Json, null, bool, int, real, str, arr, obj, nil, item, end, field, Real,
}
use unikernel_syscall_monito.Json.Dumps.{dumps, dumps_real, quote, escape}
use unikernel_syscall_monito.Json.Loads.{
  skip, read_scalar, read_value, at_end, loads, read_number, as_str, read_string,
}
use unikernel_syscall_monito.Json.RoundTrip.Strings.{read_string-escape}
use unikernel_syscall_monito.Json.RoundTrip.Numbers.{Stops, read_number-str, read_number-dumps_real}
use unikernel_syscall_monito.Py.Number
use unikernel_syscall_monito.Py.Number.{digits, IsDigit, digits-IsDigit, digits-ne-nil}
use unikernel_syscall_monito.Py.Strip.{starts_with}
use unikernel_syscall_monito.Json.RoundTrip.Opening.{
  IsJson, ReadsValue, ReadsItems, ReadsFields, skip-Opens, IsNumeric, str-IsNumeric, real-IsNumeric,
  read_value-IsNumeric, read_scalar-IsNumeric, dumps-Opens,
}
use unikernel_syscall_monito.Json.RoundTrip.Arrays.{arr-Reads, items-Reads}
use unikernel_syscall_monito.Json.RoundTrip.Objects.{obj-Reads, fields-Reads}

null-Reads : ReadsValue null
unfolding dumps read_value read_scalar starts_with
null-Reads h rest zero s l = absurd (omega arith)
null-Reads h rest (suc f) s l = refl

bool-Reads : (b : Bool) → ReadsValue (bool b)
unfolding dumps read_value read_scalar starts_with
bool-Reads true h rest zero s l = absurd (omega arith)
bool-Reads false h rest zero s l = absurd (omega arith)
bool-Reads true h rest (suc f) s l = refl
bool-Reads false h rest (suc f) s l = refl

positive : (s : Text) → IsNumeric s → 0 < length s
positive [] h = absurd h
positive (c ∷ s) h = omega arith

numeric-Reads :
    (v : Json) (s rest : Text)
    → IsNumeric s
    → read_number (s ++ rest) ≡ some (v, rest)
    → (f : ℕ) → length s ≤ f
    → read_value f (s ++ rest) ≡ some (v, rest)
numeric-Reads v s rest h e zero l = absurd (omega (arith, positive s h))
numeric-Reads v s rest h e (suc f) l =
    read_value-IsNumeric f s rest h ∙ read_scalar-IsNumeric s rest h ∙ e

int-Reads : (n : ℤ) → ReadsValue (int n)
unfolding dumps
int-Reads n h rest f s l =
    numeric-Reads (int n) (Number.str n) rest (str-IsNumeric n) (read_number-str n rest s) f l

real-Reads : (r : Real) → ReadsValue (real r)
unfolding dumps IsJson
real-Reads r h rest f s l =
    numeric-Reads (real r) (dumps_real r) rest (real-IsNumeric r h)
      (read_number-dumps_real r rest h s) f l

str-Reads : (s : Text) → ReadsValue (str s)
unfolding dumps quote read_value IsJson
str-Reads s h rest zero st l = absurd (omega arith)
str-Reads s h rest (suc f) st l =
    ap (λ t. as_str (read_string t)) (append_assoc (escape s) (b'"' ∷ []) rest)
    ∙ ap as_str (read_string-escape s rest h)

-- A value that was written is read back off the front of any text, with its length as fuel.
pub dumps-Reads : (v : Json) → ReadsValue v
dumps-Reads v = elim v as ReadsValue ReadsItems ReadsFields [
  | null ↦ null-Reads
  | bool b ↦ bool-Reads b
  | int n ↦ int-Reads n
  | real r ↦ real-Reads r
  | str s ↦ str-Reads s
  | arr (xs → ih) ↦ arr-Reads xs ih
  | obj (fs → ih) ↦ obj-Reads fs ih
  | nil ↦ tt
  | item (w → ih) (xs → ihs) ↦ items-Reads w xs ih ihs
  | end ↦ tt
  | field k (w → ih) (fs → ihs) ↦ fields-Reads k w fs ih ihs
]

at_end-blank : (v : Json) (rest : Text) → skip rest ≡ [] → at_end (some (v, rest)) ≡ some v
unfolding at_end
at_end-blank v rest e = rw (at_end, e) refl

-- A value that was written is read, with white space behind it.
pub loads-dumps-append :
    (v : Json) (rest : Text)
    → IsJson v
    → Stops rest
    → skip rest ≡ []
    → loads (dumps v ++ rest) ≡ some v
unfolding loads
loads-dumps-append v rest h st e =
    let n = suc (length (dumps v ++ rest)) in
    ap (λ t. at_end (read_value n t)) (skip-Opens (dumps v) rest (dumps-Opens v h))
    ∙ ap at_end (dumps-Reads v h rest n st (omega (arith, length-append (dumps v) rest)))
    ∙ at_end-blank v rest e

-- `json.loads(json.dumps(v))` is `v`, for every value of JSON.
pub loads-dumps : (v : Json) → IsJson v → loads (dumps v) ≡ some v
unfolding skip
loads-dumps v h = ap loads (sym (append-nil (dumps v))) ∙ loads-dumps-append v [] h tt refl
