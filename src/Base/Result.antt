-- ===== src/Base/Result.antt =====
-- A Python call returns a value or raises; the messages of exceptions are left out.
use mathlib.Core.Path.{◌≡◌, refl}
use mathlib.Core.Logic.{◌⊎◌, inl, inr}

pub data Exception : Type 0 where
  value_error : Exception
  key_error : Exception
  index_error : Exception
  type_error : Exception
  os_error : Exception
  timeout_error : Exception
  timeout_expired : Exception
  called_process_error : Exception
  json_decode_error : Exception
  keyboard_interrupt : Exception
  attribute_error : Exception
  runtime_error : Exception
  zero_division_error : Exception

-- How a call ends: it raises, or it returns.
pub data Result {ℓ} (V : Type ℓ) : Type ℓ where
  raise : Exception → Result V
  ok : V → Result V

-- The rest of a body, which an exception skips.
infixl 5 ◌>>=◌
abbrev pub ◌>>=◌ {i j} : {V : Type i} {W : Type j} → Result V → (V → Result W) → Result W
raise exc >>= rest = raise exc
ok v >>= rest = rest v

-- A chain that returns has a first part that returns.
pub bind-eq-ok {i j} :
    {V : Type i} {W : Type j} (first : Result V) (rest : V → Result W) {w : W}
    → (first >>= rest) ≡ ok w
    → (v : V) × (first ≡ ok v) × (rest v ≡ ok w)
bind-eq-ok (raise exc) rest returns = cc
bind-eq-ok (ok v) rest returns = (v, refl, returns)

pub Result-cases {i} :
    {V : Type i} (r : Result V) → ((exc : Exception) × (r ≡ raise exc)) ⊎ ((v : V) × (r ≡ ok v))
Result-cases (raise exc) = inl (exc, refl)
Result-cases (ok v) = inr (v, refl)

pub ok_injective {i} : {V : Type i} {v w : V} → ok v ≡ ok w → v ≡ w
ok_injective h = cc h
