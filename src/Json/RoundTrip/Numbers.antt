-- ===== src/Json/RoundTrip/Numbers.antt =====
-- The numbers: an integer, or a float that is kept as its literal.
use unikernel_syscall_monito.Base.{
  ℕ, zero, suc, ◌≡◌, ◌≢◌, refl, ap, sym, ◌∙◌, ◌⊎◌, inl, inr, Bool, true, false, Bool-cases, some,
  [], ◌∷◌, ◌++◌, arith, if◌then◌else◌, All, append_assoc, between, ◌==◌,
}
use unikernel_syscall_monito.Base.Int.{ℤ, pos, negsuc, negate}
use unikernel_syscall_monito.Base.Text.{Text}
use unikernel_syscall_monito.Json.Value.{int, real, Real}
use unikernel_syscall_monito.Json.Dumps.{dumps_real, point}
use unikernel_syscall_monito.Json.Loads.Numbers.{
  span_digits, whole_part, fraction_part, exponent_part, number_of, read_unsigned, read_number,
}
use unikernel_syscall_monito.Py.Number.{
  str, digits, IsDigit, digits-IsDigit, value-digits, Leading, digits-Leading,
}

-- Nothing that would be read on as part of a number.
abbrev pub IsStop : ℕ → Type 0
IsStop c = (between b'0' b'9' c ≡ false) × (c ≢ b'.') × (c ≢ b'e') × (c ≢ b'E')

abbrev pub Stops : Text → Type 0
Stops [] = Unit
Stops (c ∷ s) = IsStop c

abbrev NoDigit : Text → Type 0
NoDigit [] = Unit
NoDigit (c ∷ s) = between b'0' b'9' c ≡ false

span_digits-append : (ds t : Text) → All IsDigit ds → NoDigit t → span_digits (ds ++ t) ≡ (ds, t)
unfolding span_digits
span_digits-append [] [] h k = refl
span_digits-append [] (c ∷ t) h k = rw k refl
span_digits-append (d ∷ ds) t h k = rw (h.0, span_digits-append ds t h.1 k) refl

-- Digits without a leading zero, or a zero alone.
abbrev pub IsWhole : Text → Type 0
IsWhole [] = ⊥
IsWhole (c ∷ []) = IsDigit c
IsWhole (c ∷ d ∷ s) = (c ≢ b'0') × All IsDigit (c ∷ d ∷ s)

whole_part-append :
    (whole t : Text) → IsWhole whole → NoDigit t → whole_part (whole ++ t) ≡ some (whole, t)
unfolding whole_part
whole_part-append [] t h k = absurd h
whole_part-append (c ∷ []) t h k = elim (Bool-cases (c == b'0')) [
  | inl z ↦ rw z refl
  | inr z ↦ rw (z, h, span_digits-append [] t tt k) refl
]
whole_part-append (c ∷ d ∷ s) t h k =
    let z : (c == b'0') ≡ false = ground arith in
    rw (z, h.1.0, span_digits-append (d ∷ s) t h.1.1 k) refl

Stops-NoDigit : (t : Text) → Stops t → NoDigit t
Stops-NoDigit [] h = tt
Stops-NoDigit (c ∷ t) h = h.0

fraction_part_none : (t : Text) → Stops t → fraction_part t ≡ ([], t)
unfolding fraction_part
fraction_part_none [] h = refl
fraction_part_none (c ∷ t) h = ground arith

exponent_part_none : (t : Text) → Stops t → exponent_part t ≡ ([], t)
unfolding exponent_part
exponent_part_none [] h = refl
exponent_part_none (c ∷ []) h = refl
exponent_part_none (c ∷ d ∷ t) h = ground arith

read_unsigned_lem :
    (negative : Bool) (s whole r f t e u : Text)
    → whole_part s ≡ some (whole, r)
    → fraction_part r ≡ (f, t)
    → exponent_part t ≡ (e, u)
    → read_unsigned negative s ≡ some (number_of negative whole f e, u)
unfolding read_unsigned
read_unsigned_lem negative s whole r f t e u h h' h'' =
    rw (h, read_unsigned) (rw (h', read_unsigned) (rw (h'', read_unsigned) refl))

read_number-IsWhole :
    (whole t : Text) → IsWhole whole → read_number (whole ++ t) ≡ read_unsigned false (whole ++ t)
unfolding read_number
read_number-IsWhole [] t h = absurd h
read_number-IsWhole (c ∷ []) t h = ground arith
read_number-IsWhole (c ∷ d ∷ s) t h =
    let z : (c == b'-') ≡ false = ground (arith, h.1.0) in rw z refl

read_number-minus : (s : Text) → read_number (b'-' ∷ s) ≡ read_unsigned true s
unfolding read_number
read_number-minus s = refl

Leading-IsWhole : (s : Text) → All IsDigit s → Leading s → IsWhole s
Leading-IsWhole [] h l = absurd l
Leading-IsWhole (c ∷ []) h l = h.0
Leading-IsWhole (c ∷ d ∷ s) h l = (l, h)

digits-IsWhole : (n : ℕ) → IsWhole (digits 10 n)
digits-IsWhole zero = unfold digits in refl
digits-IsWhole (suc n) =
    Leading-IsWhole (digits 10 (suc n)) (digits-IsDigit (suc n))
      (digits-Leading (suc n) (omega arith))

read_digits :
    (negative : Bool) (n : ℕ) (rest : Text)
    → Stops rest
    → read_unsigned negative (digits 10 n ++ rest)
      ≡ some (int (if negative then negate n else pos n), rest)
read_digits negative n rest h =
    read_unsigned_lem negative _ (digits 10 n) rest [] rest [] rest
      (whole_part-append (digits 10 n) rest (digits-IsWhole n) (Stops-NoDigit rest h))
      (fraction_part_none rest h) (exponent_part_none rest h)
    ∙ ap (λ k. some (int (if negative then negate k else pos k), rest))
        (value-digits 10 n (omega arith) (omega arith))

-- An integer is read back, and what follows is left.
pub read_number-str :
    (n : ℤ) (rest : Text) → Stops rest → read_number (str n ++ rest) ≡ some (int n, rest)
unfolding str
read_number-str (pos n) rest h =
    read_number-IsWhole (digits 10 n) rest (digits-IsWhole n) ∙ read_digits false n rest h
read_number-str (negsuc n) rest h =
    read_number-minus (digits 10 (suc n) ++ rest) ∙ read_digits true (suc n) rest h

-- What Python writes behind the digits of a large or small float: `e+16`, `e-07`.
abbrev pub IsExponent : Text → Type 0
IsExponent [] = Unit
IsExponent (e ∷ []) = ⊥
IsExponent (e ∷ c ∷ ds) = (e ≡ b'e') × ((c ≡ b'+') ⊎ (c ≡ b'-')) × (ds ≢ []) × All IsDigit ds

-- The literal of a finite float.
pub record IsReal (r : Real) : Type 0 where
  pub whole : IsWhole r.whole
  pub fraction : All IsDigit r.fraction
  pub exponent : IsExponent r.exponent
  pub inexact : (r.fraction ≢ []) ⊎ (r.exponent ≢ [])

exponent_part-append :
    (e rest : Text) → IsExponent e → Stops rest → exponent_part (e ++ rest) ≡ (e, rest)
unfolding exponent_part
exponent_part-append [] rest h k = exponent_part_none rest k
exponent_part-append (e ∷ []) rest h k = absurd h
exponent_part-append (e ∷ c ∷ []) rest h k = absurd (h.2 refl)
exponent_part-append (e ∷ c ∷ d ∷ ds) rest h k =
    ground (arith, span_digits-append (d ∷ ds) rest h.3 (Stops-NoDigit rest k))

-- What may follow the digits of a fraction.
exponent-NoDigit : (e rest : Text) → IsExponent e → Stops rest → NoDigit (e ++ rest)
exponent-NoDigit [] rest h k = Stops-NoDigit rest k
exponent-NoDigit (e ∷ []) rest h k = absurd h
exponent-NoDigit (e ∷ c ∷ ds) rest h k = ground (arith, h.0)

no_point : (e rest : Text) → IsExponent e → Stops rest → fraction_part (e ++ rest) ≡ ([], e ++ rest)
unfolding fraction_part
no_point [] rest h k = fraction_part_none rest k
no_point (e ∷ []) rest h k = absurd h
no_point (e ∷ c ∷ ds) rest h k = ground (arith, h.0)

fraction_part-append :
    (f e rest : Text)
    → All IsDigit f
    → IsExponent e
    → Stops rest
    → fraction_part (point f ++ (e ++ rest)) ≡ (f, e ++ rest)
unfolding fraction_part
fraction_part-append [] e rest h x k = no_point e rest x k
fraction_part-append (c ∷ f) e rest h x k =
    ground (arith, span_digits-append (c ∷ f) (e ++ rest) h (exponent-NoDigit e rest x k))

point-NoDigit : (f e rest : Text) → IsExponent e → Stops rest → NoDigit (point f ++ (e ++ rest))
point-NoDigit [] e rest x k = exponent-NoDigit e rest x k
point-NoDigit (c ∷ f) e rest x k = refl

number_of-real :
    (negative : Bool) (whole f e : Text)
    → (f ≢ []) ⊎ (e ≢ [])
    → number_of negative whole f e
      ≡ real (record { negative = negative; whole = whole; fraction = f; exponent = e })
number_of-real negative whole [] [] h = ground arith
number_of-real negative whole [] (c ∷ e) h = refl
number_of-real negative whole (c ∷ f) e h = refl

read_unsigned-real :
    (r : Real) (rest : Text)
    → IsReal r
    → Stops rest
    → read_unsigned r.negative (r.whole ++ (point r.fraction ++ (r.exponent ++ rest)))
      ≡ some (real r, rest)
read_unsigned-real r rest h k =
    read_unsigned_lem r.negative _ r.whole _ r.fraction _ r.exponent rest
      (whole_part-append r.whole _ h.whole (point-NoDigit r.fraction r.exponent rest h.exponent k))
      (fraction_part-append r.fraction r.exponent rest h.fraction h.exponent k)
      (exponent_part-append r.exponent rest h.exponent k)
    ∙ ap (λ j. some (j, rest)) (number_of-real r.negative r.whole r.fraction r.exponent h.inexact)

-- The literal without its sign, and what follows.
abbrev unsigned : Real → Text → Text
unsigned r rest = r.whole ++ (point r.fraction ++ (r.exponent ++ rest))

unsigned-real :
    (r : Real) (rest : Text)
    → IsReal r
    → Stops rest
    → (negative : Bool) → r.negative ≡ negative
    → read_number ((if negative then b'-' ∷ [] else []) ++ unsigned r rest) ≡ some (real r, rest)
unsigned-real r rest h k true e =
    read_number-minus (unsigned r rest)
    ∙ ap (λ b. read_unsigned b (unsigned r rest)) (sym e)
    ∙ read_unsigned-real r rest h k
unsigned-real r rest h k false e =
    read_number-IsWhole r.whole _ h.whole
    ∙ ap (λ b. read_unsigned b (unsigned r rest)) (sym e)
    ∙ read_unsigned-real r rest h k

-- The literal of a float is read back, and what follows is left.
pub read_number-dumps_real :
    (r : Real) (rest : Text)
    → IsReal r
    → Stops rest
    → read_number (dumps_real r ++ rest) ≡ some (real r, rest)
unfolding dumps_real
read_number-dumps_real r rest h k = simp append_assoc (unsigned-real r rest h k r.negative refl)
