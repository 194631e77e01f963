-- ===== src/Inline/Resolve/Laws.antt =====
-- `resolve_syscall_addr` and `resolve_syscall_ret_addr` over the lines of nm and objdump.
use unikernel_syscall_monito.Base.{
  ℕ, ◌≡◌, ◌≢◌, refl, ap, ◌∙◌, true, false, List, [], ◌∷◌, ◌++◌, ◌==◌, All, arith,
}
use unikernel_syscall_monito.Base.Int.{pos}
use unikernel_syscall_monito.Base.Result.{ok, ◌>>=◌}
use unikernel_syscall_monito.Base.Text.{Text, codes}
use unikernel_syscall_monito.Py.Hex.{
  int16, int16-padded, padded, padded-IsHexDigit, padded-ne-nil, IsHexDigit, IsHexDigit-NoSpace,
  is_hex_digit,
}
use unikernel_syscall_monito.Py.Strip.{
  is_space, left_strip, strip, NoSpace, append-ends_with, strip-append,
}
use unikernel_syscall_monito.Inline.Resolve.{
  word, not_empty, first_word, before_colon, is_hook_line, is_return_line, resolve_syscall_addr,
  resolve_syscall_ret_addr, or_value_error,
}

word-append : (s t : Text) → NoSpace s → word (s ++ b' ' ∷ t) ≡ s
unfolding word is_space
word-append [] t h = refl
word-append (c ∷ s) t h = rw h.0 (ap (λ r. c ∷ r) (word-append s t h.1))

left_strip-word : (s t : Text) → s ≢ [] → NoSpace s → left_strip (s ++ t) ≡ s ++ t
unfolding left_strip
left_strip-word [] t ne h = absurd (ne refl)
left_strip-word (c ∷ s) t ne h = rw h.0 refl

not_empty-ok : (s : Text) → s ≢ [] → not_empty s ≡ ok s
not_empty-ok [] ne = absurd (ne refl)
not_empty-ok (c ∷ s) ne = refl

first_word-append : (s t : Text) → s ≢ [] → NoSpace s → first_word (s ++ b' ' ∷ t) ≡ ok s
unfolding first_word
first_word-append s t ne h =
    ap (λ u. not_empty (word u)) (left_strip-word s (b' ' ∷ t) ne h)
    ∙ ap not_empty (word-append s t h)
    ∙ not_empty-ok s ne

before_colon-append :
    (s t : Text) → All (λ c. (c == b':') ≡ false) s → before_colon (s ++ b':' ∷ t) ≡ s
unfolding before_colon
before_colon-append [] t h = refl
before_colon-append (c ∷ s) t h = rw h.0 (ap (λ r. c ∷ r) (before_colon-append s t h.1))

no_colon :
    (blank s : Text)
    → All (λ c. is_space c ≡ true) blank
    → All IsHexDigit s
    → All (λ c. (c == b':') ≡ false) (blank ++ s)
unfolding is_space is_hex_digit
no_colon [] [] h k = tt
no_colon [] (c ∷ s) h k = (ground arith, no_colon [] s h k.1)
no_colon (c ∷ blank) s h k = (ground arith, no_colon blank s h.1 k)

-- The line of the symbol.
unfoldable pub hook_line : ℕ → ℕ → Text
hook_line k n = padded k n ++ codes " T _ukplat_syscall"

-- The line of an instruction.
unfoldable pub instruction : Text → ℕ → ℕ → Text → Text
instruction blank k n rest = (blank ++ padded k n) ++ b':' ∷ rest

skip_lines_addr :
    (before : List Text) (line : Text) (after : List Text)
    → All (λ l. is_hook_line l ≡ false) before
    → resolve_syscall_addr (before ++ line ∷ after) ≡ resolve_syscall_addr (line ∷ after)
unfolding resolve_syscall_addr
skip_lines_addr [] line after h = refl
skip_lines_addr (l ∷ before) line after h = rw h.0 (skip_lines_addr before line after h.1)

skip_lines_ret :
    (before : List Text) (line : Text) (after : List Text)
    → All (λ l. is_return_line l ≡ false) before
    → resolve_syscall_ret_addr (before ++ line ∷ after) ≡ resolve_syscall_ret_addr (line ∷ after)
unfolding resolve_syscall_ret_addr
skip_lines_ret [] line after h = refl
skip_lines_ret (l ∷ before) line after h = rw h.0 (skip_lines_ret before line after h.1)

resolve-hook_line :
    (k n : ℕ) (after : List Text) → resolve_syscall_addr (hook_line k n ∷ after) ≡ ok (pos n)
unfolding resolve_syscall_addr hook_line is_hook_line
resolve-hook_line k n after = rw (append-ends_with (padded k n) (codes " T _ukplat_syscall")) (
    ap (λ r. r >>= λ w. or_value_error (int16 w))
      (first_word-append (padded k n) (codes "T _ukplat_syscall") (padded-ne-nil k n)
        (IsHexDigit-NoSpace (padded k n) (padded-IsHexDigit k n)))
    ∙ ap or_value_error (int16-padded k n))

resolve-instruction :
    (blank : Text) (k n : ℕ) (rest : Text) (after : List Text)
    → All (λ c. is_space c ≡ true) blank
    → is_return_line (instruction blank k n rest) ≡ true
    → resolve_syscall_ret_addr (instruction blank k n rest ∷ after) ≡ ok (pos n)
unfolding resolve_syscall_ret_addr instruction
resolve-instruction blank k n rest after h e =
    let hex = padded-IsHexDigit k n in
    rw e (
      ap (λ s. or_value_error (int16 (strip s)))
        (before_colon-append (blank ++ padded k n) rest (no_colon blank (padded k n) h hex))
      ∙ ap (λ s. or_value_error (int16 s))
          (strip-append blank (padded k n) h (IsHexDigit-NoSpace (padded k n) hex))
      ∙ ap or_value_error (int16-padded k n))

-- In the output of nm, the first line of the symbol gives the address of the hook; in that of
-- objdump, the first line with the jump gives the address of that instruction, which stands before
-- the colon; whatever width the addresses are printed in.
pub resolve_lem :
    (symbols symbols' : List Text) (k n : ℕ) (code code' : List Text) (blank rest : Text) (j m : ℕ)
    → All (λ l. is_hook_line l ≡ false) symbols
    → All (λ l. is_return_line l ≡ false) code
    → All (λ c. is_space c ≡ true) blank
    → is_return_line (instruction blank j m rest) ≡ true
    → (resolve_syscall_addr (symbols ++ hook_line k n ∷ symbols') ≡ ok (pos n))
      × (resolve_syscall_ret_addr (code ++ instruction blank j m rest ∷ code') ≡ ok (pos m))
resolve_lem symbols symbols' k n code code' blank rest j m hs hc hb he = (
  skip_lines_addr symbols (hook_line k n) symbols' hs ∙ resolve-hook_line k n symbols',
  skip_lines_ret code (instruction blank j m rest) code' hc
      ∙ resolve-instruction blank j m rest code' hb he,
)
