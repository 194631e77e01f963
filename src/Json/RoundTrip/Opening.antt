-- ===== src/Json/RoundTrip/Opening.antt =====
-- What can start a value, so that no reader skips it, and what reading one back means.
use unikernel_syscall_monito.Base.{
  ℕ, suc, ◌≤◌, ◌≡◌, ◌≢◌, refl, ◌⊎◌, inl, inr, true, false, Bool-cases, Option, some, [], ◌∷◌, ◌++◌,
  arith, All, length,
}
use unikernel_syscall_monito.Base.Int.{ℤ, pos, negsuc}
use unikernel_syscall_monito.Base.Text.{Text}
use unikernel_syscall_monito.Json.Value.{
  Json, null, bool, int, real, str, arr, obj, Items, nil, item, Fields, end, field, Real,
}
use unikernel_syscall_monito.Json.Dumps.{dumps, dumps_items, dumps_fields, dumps_real, quote, point}
use unikernel_syscall_monito.Json.Loads.{
  skip, read_scalar, read_value, read_items, read_fields, first_item, is_json_space, read_number,
}
use unikernel_syscall_monito.Json.RoundTrip.Strings.{IsScalar}
use unikernel_syscall_monito.Json.RoundTrip.Numbers.{Stops, IsReal, IsWhole}
use unikernel_syscall_monito.Py.Number
use unikernel_syscall_monito.Py.Number.{digits, IsDigit, digits-IsDigit, digits-ne-nil}
use unikernel_syscall_monito.Py.Strip.{starts_with}

-- The values that JSON can hold: texts without surrogates and finite floats.
unfoldable mutual
  pub IsJson : Json → Type 0
  IsJson null = Unit
  IsJson (bool b) = Unit
  IsJson (int n) = Unit
  IsJson (real r) = IsReal r
  IsJson (str s) = All IsScalar s
  IsJson (arr xs) = AreItems xs
  IsJson (obj fs) = AreFields fs

  pub AreItems : Items → Type 0
  AreItems nil = Unit
  AreItems (item v xs) = IsJson v × AreItems xs

  pub AreFields : Fields → Type 0
  AreFields end = Unit
  AreFields (field k v fs) = All IsScalar k × IsJson v × AreFields fs

-- The first character of a value.
abbrev IsOpening : ℕ → Type 0
IsOpening c = (is_json_space c ≡ false) × (c ≢ b']') × (c ≢ b'}')

abbrev pub Opens : Text → Type 0
Opens [] = ⊥
Opens (c ∷ s) = IsOpening c

pub skip-Opens : (s rest : Text) → Opens s → skip (s ++ rest) ≡ s ++ rest
unfolding skip
skip-Opens [] rest h = absurd h
skip-Opens (c ∷ s) rest h = rw h.0 refl

pub first_item-Opens :
    (s rest : Text) (more : Text → Option (Items × Text))
    → Opens s
    → first_item (s ++ rest) more ≡ more (s ++ rest)
unfolding first_item
first_item-Opens [] rest more h = absurd h
first_item-Opens (c ∷ s) rest more h = ground arith

-- The first character of a number.
abbrev pub IsNumeric : Text → Type 0
IsNumeric [] = ⊥
IsNumeric (c ∷ s) = (c ≡ b'-') ⊎ IsDigit c

IsNumeric-Opens : (s : Text) → IsNumeric s → Opens s
IsNumeric-Opens [] h = absurd h
IsNumeric-Opens (c ∷ s) h = ground arith

digits-IsNumeric : (s : Text) → s ≢ [] → All IsDigit s → IsNumeric s
digits-IsNumeric [] ne h = absurd (ne refl)
digits-IsNumeric (c ∷ s) ne h = inr h.0

pub read_value-IsNumeric :
    (f : ℕ) (s rest : Text) → IsNumeric s → read_value (suc f) (s ++ rest) ≡ read_scalar (s ++ rest)
unfolding read_value
read_value-IsNumeric f [] rest h = absurd h
read_value-IsNumeric f (c ∷ s) rest h = ground arith

pub read_scalar-IsNumeric :
    (s rest : Text) → IsNumeric s → read_scalar (s ++ rest) ≡ read_number (s ++ rest)
unfolding read_scalar starts_with
read_scalar-IsNumeric [] rest h = absurd h
read_scalar-IsNumeric (c ∷ s) rest h = ground arith

pub str-IsNumeric : (n : ℤ) → IsNumeric (Number.str n)
unfolding Number.str
str-IsNumeric (pos n) = digits-IsNumeric (digits 10 n) (digits-ne-nil 10 n) (digits-IsDigit n)
str-IsNumeric (negsuc n) = inl refl

IsWhole-IsNumeric : (s : Text) → IsWhole s → IsNumeric s
IsWhole-IsNumeric [] h = absurd h
IsWhole-IsNumeric (c ∷ []) h = inr h
IsWhole-IsNumeric (c ∷ d ∷ s) h = inr h.1.0

append-IsNumeric : (s t : Text) → IsNumeric s → IsNumeric (s ++ t)
append-IsNumeric [] t h = absurd h
append-IsNumeric (c ∷ s) t h = h

pub real-IsNumeric : (r : Real) → IsReal r → IsNumeric (dumps_real r)
unfolding dumps_real
real-IsNumeric r h = elim (Bool-cases r.negative) [
  | inl minus ↦ rw minus (inl refl)
  | inr plus ↦ rw plus (
      append-IsNumeric (r.whole ++ point r.fraction) r.exponent
        (append-IsNumeric r.whole (point r.fraction) (IsWhole-IsNumeric r.whole h.whole)))
]

pub dumps-Opens : (v : Json) → IsJson v → Opens (dumps v)
unfolding dumps quote IsJson
dumps-Opens null h = ground arith
dumps-Opens (bool true) h = ground arith
dumps-Opens (bool false) h = ground arith
dumps-Opens (int n) h = IsNumeric-Opens _ (str-IsNumeric n)
dumps-Opens (real r) h = IsNumeric-Opens _ (real-IsNumeric r h)
dumps-Opens (str s) h = ground arith
dumps-Opens (arr xs) h = ground arith
dumps-Opens (obj fs) h = ground arith

abbrev pub ReadsValue : Json → Type 0
ReadsValue v =
    IsJson v
    → (rest : Text) (f : ℕ) → Stops rest
    → length (dumps v) ≤ f
    → read_value f (dumps v ++ rest) ≡ some (v, rest)

abbrev pub ReadsItems : Items → Type 0
ReadsItems nil = Unit
ReadsItems (item v xs) =
    AreItems (item v xs)
    → (rest : Text) (f : ℕ) → length (dumps_items (item v xs)) ≤ f
    → read_items f (dumps_items (item v xs) ++ rest) ≡ some (item v xs, rest)

abbrev pub ReadsFields : Fields → Type 0
ReadsFields end = Unit
ReadsFields (field k v fs) =
    AreFields (field k v fs)
    → (rest : Text) (f : ℕ) → length (dumps_fields (field k v fs)) ≤ f
    → read_fields f (dumps_fields (field k v fs) ++ rest) ≡ some (field k v fs, rest)

pub append-Opens : (s t : Text) → Opens s → Opens (s ++ t)
append-Opens [] t h = absurd h
append-Opens (c ∷ s) t h = h
