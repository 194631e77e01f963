-- ===== src/Py/Number/Digits.antt =====
-- The digits of a number in a base from 2 to 16, and their value.
use unikernel_syscall_monito.Base.{
  ℕ, zero, suc, true, ◌+◌, ◌-◌, ◌*◌, ◌/◌, ◌%◌, ◌≤◌, ◌<◌, ◌≡◌, ◌≢◌, refl, ap, [], ◌∷◌, ◌++◌, arith,
  ltb, between, if◌then◌else◌, Bool-cases, inl, inr, tests, div-add-mod, mod-lt, All, All-append,
}
use unikernel_syscall_monito.Base.Text.{Text}

unfoldable pub digit_char : ℕ → ℕ
digit_char d = if ltb d 10 then b'0' + d else b'a' + (d - 10)

-- The value of a digit, of either case.
unfoldable pub digit_value : ℕ → ℕ
digit_value c =
    if between b'0' b'9' c
    then c - b'0'
    else if between b'a' b'z' c
    then c - b'a' + 10
    else c - b'A' + 10

-- Fuel above the number is enough, since each round divides it.
unfoldable pub emit : ℕ → ℕ → ℕ → Text
emit zero base n = []
emit (suc fuel) base n =
    let rest = emit fuel base (n / base) in
    if ltb n base then digit_char n ∷ [] else rest ++ digit_char (n % base) ∷ []

unfoldable pub digits : ℕ → ℕ → Text
unfolding emit digit_char
digits base n = emit (suc n) base n

-- Horner's rule from the left.
unfoldable pub value : ℕ → ℕ → Text → ℕ
value base acc [] = acc
value base acc (c ∷ s) = value base (acc * base + digit_value c) s

pub digit_value-digit_char : (d : ℕ) → d < 16 → digit_value (digit_char d) ≡ d
unfolding digit_value digit_char
digit_value-digit_char d h = ground arith

pub value-append :
    (base acc : ℕ) (s t : Text) → value base acc (s ++ t) ≡ value base (value base acc s) t
unfolding value
value-append base acc [] t = refl
value-append base acc (c ∷ s) t = value-append base (acc * base + digit_value c) s t

div_lt : (n base : ℕ) → 2 ≤ base → base ≤ n → n / base < n
div_lt n base h k = grind (arith, div-add-mod n base)

quotient_lt : (n base fuel : ℕ) → 2 ≤ base → base ≤ n → n < suc fuel → n / base < fuel
quotient_lt n base fuel h k l = omega (arith, div_lt n base h k)

value_last :
    (base acc d : ℕ) (s : Text)
    → d < 16
    → value base acc (s ++ digit_char d ∷ []) ≡ value base acc s * base + d
unfolding value
value_last base acc d s h = rw (value-append base acc s, digit_value-digit_char d h)

pub value-emit :
    (fuel base n : ℕ) → 2 ≤ base → base ≤ 16 → n < fuel → value base 0 (emit fuel base n) ≡ n
unfolding emit value
value-emit zero base n h k l = elim l [ ]
value-emit (suc fuel) base n h k l = elim (Bool-cases (ltb n base)) [
  | inl small ↦ rw small (omega (arith, digit_value-digit_char n (omega (tests, small))))
  | inr large ↦ rw large (
      omega (
        arith,
        value_last base 0 (n % base) (emit fuel base (n / base)) (grind arith),
        value-emit fuel base (n / base) h k (quotient_lt n base fuel h (omega (tests, large)) l),
        div-add-mod n base,
        ap (λ t. t * base)
            (value-emit fuel base (n / base) h k
              (quotient_lt n base fuel h (omega (tests, large)) l)),
      ))
]

-- A base-ten digit.
abbrev pub IsDigit : ℕ → Type 0
IsDigit c = between b'0' b'9' c ≡ true

digit_char-IsDigit : (d : ℕ) → d < 10 → IsDigit (digit_char d)
unfolding digit_char
digit_char-IsDigit d h = ground arith

-- What holds of every digit of a base holds of all that is written in it.
module _ (P : ℕ → Type 0) (base : ℕ) (positive : 0 < base)
    (each : (d : ℕ) → d < base → P (digit_char d)) where
  emit-All : (fuel n : ℕ) → All P (emit fuel base n)
  unfolding emit
  emit-All zero n = tt
  emit-All (suc fuel) n = elim (Bool-cases (ltb n base)) [
    | inl small ↦ rw small (each n (omega (tests, small)), tt)
    | inr large ↦ rw large (
        All-append P (emit fuel base (n / base)) _ (emit-All fuel (n / base))
          (each (n % base) (mod-lt n positive), tt))
  ]

  pub digits-All : (n : ℕ) → All P (digits base n)
  unfolding digits
  digits-All n = emit-All (suc n) n

pub digits-IsDigit : (n : ℕ) → All IsDigit (digits 10 n)
digits-IsDigit n = digits-All IsDigit 10 (omega arith) digit_char-IsDigit n

pub value-digits : (base n : ℕ) → 2 ≤ base → base ≤ 16 → value base 0 (digits base n) ≡ n
unfolding digits
value-digits base n h k = value-emit (suc n) base n h k (omega arith)

append-ne-nil : (s : Text) (c : ℕ) → s ++ c ∷ [] ≢ []
append-ne-nil [] c h = cc
append-ne-nil (d ∷ s) c h = cc

pub digits-ne-nil : (base n : ℕ) → digits base n ≢ []
unfolding digits
digits-ne-nil base n = elim (Bool-cases (ltb n base)) [
  | inl small ↦ rw small (λ h. cc)
  | inr large ↦ rw large (append-ne-nil (emit n base (n / base)) (digit_char (n % base)))
]

pub digit_value-IsDigit : (c : ℕ) → IsDigit c → c - b'0' ≡ digit_value c
unfolding digit_value
digit_value-IsDigit c h = rw h

-- Some first digit that is no zero.
abbrev pub Leading : Text → Type 0
Leading [] = ⊥
Leading (c ∷ s) = c ≢ b'0'

append-Leading : (s t : Text) → Leading s → Leading (s ++ t)
append-Leading [] t h = absurd h
append-Leading (c ∷ s) t h = h

emit-Leading : (fuel n : ℕ) → 0 < n → n < fuel → Leading (emit fuel 10 n)
unfolding emit digit_char
emit-Leading zero n h k = elim k [ ]
emit-Leading (suc fuel) n h k = elim (Bool-cases (ltb n 10)) [
  | inl small ↦ rw small (ground arith)
  | inr large ↦ rw large (
      append-Leading (emit fuel 10 (n / 10)) _
        (emit-Leading fuel (n / 10) (omega (tests, large)) (omega (tests, large))))
]

-- The digits of a positive number begin with another digit than zero.
pub digits-Leading : (n : ℕ) → 0 < n → Leading (digits 10 n)
unfolding digits
digits-Leading n h = emit-Leading (suc n) n h (omega arith)
