-- ===== src/Inline/Resolve.antt =====
-- `resolve_syscall_addr` and `resolve_syscall_ret_addr`: the addresses of the two hooks, from the
-- lines that nm and objdump print.
pub mod Laws
use unikernel_syscall_monito.Base.{
  ℕ, Bool, true, false, ◌&&◌, Option, none, some, List, [], ◌∷◌, ◌++◌, ◌==◌, if◌then◌else◌,
}
use unikernel_syscall_monito.Base.Int.{ℤ}
use unikernel_syscall_monito.Base.Result.{
  Result, ok, raise, value_error, index_error, runtime_error, ◌>>=◌,
}
use unikernel_syscall_monito.Base.Text.{Text, codes}
use unikernel_syscall_monito.Py.Hex.{int16}
use unikernel_syscall_monito.Py.Strip.{is_space, left_strip, strip, ends_with, contains}

abbrev pub or_value_error : Option ℤ → Result ℤ
or_value_error none = raise value_error
or_value_error (some n) = ok n

-- The text up to the first white space.
unfoldable pub word : Text → Text
word [] = []
word (c ∷ s) = let rest = word s in if is_space c then [] else c ∷ rest

abbrev pub not_empty : Text → Result Text
not_empty [] = raise index_error
not_empty (c ∷ s) = ok (c ∷ s)

-- `line.split()[0]`
unfoldable pub first_word : Text → Result Text
unfolding word
first_word line = not_empty (word (left_strip line))

-- `line.split(":")[0]`
unfoldable pub before_colon : Text → Text
before_colon [] = []
before_colon (c ∷ s) = let rest = before_colon s in if c == b':' then [] else c ∷ rest

unfoldable pub is_hook_line : Text → Bool
is_hook_line line = ends_with line (codes " T _ukplat_syscall")

unfoldable pub is_return_line : Text → Bool
is_return_line line = contains line (codes "jmp") && contains line (codes "*%rcx")

unfoldable pub resolve_syscall_addr : List Text → Result ℤ
unfolding first_word is_hook_line
resolve_syscall_addr [] = raise runtime_error
resolve_syscall_addr (line ∷ lines) =
    let later = resolve_syscall_addr lines in
    if is_hook_line line then (do w ← first_word line; or_value_error (int16 w)) else later

unfoldable pub resolve_syscall_ret_addr : List Text → Result ℤ
unfolding before_colon is_return_line
resolve_syscall_ret_addr [] = raise runtime_error
resolve_syscall_ret_addr (line ∷ lines) =
    let later = resolve_syscall_ret_addr lines in
    if is_return_line line then or_value_error (int16 (strip (before_colon line))) else later

-- The address of the hook: the result of `int(args.addr, 0)` if there is such an argument, or else
-- the one in the lines of nm.
unfoldable pub find_addr : Option (Result ℤ) → Result (List Text) → Result ℤ
unfolding resolve_syscall_addr
find_addr (some given) nm = given
find_addr none nm = do lines ← nm; resolve_syscall_addr lines

-- The address of the return hook, which is none with `--no-ret`.
unfoldable pub find_ret_addr : Bool → Option (Result ℤ) → Result (List Text) → Result (Option ℤ)
unfolding resolve_syscall_ret_addr
find_ret_addr true given objdump = ok none
find_ret_addr false (some given) objdump = do ret_addr ← given; ok (some ret_addr)
find_ret_addr false none objdump = do
  lines ← objdump
  ret_addr ← resolve_syscall_ret_addr lines
  ok (some ret_addr)
