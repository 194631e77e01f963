-- ===== src/Strace/Line.antt =====
-- `STRACE_LINE_RE.search(clean)`: an identifier, a parenthesis, a closing parenthesis further on,
-- white space and an equals sign. The line has no newline, so the dot fits every character.
pub mod Sound
use unikernel_syscall_monito.Base.{
  ℕ, Bool, true, false, ◌||◌, Option, none, some, List, [], ◌∷◌, ◌==◌, between, if◌then◌else◌, ◌&&◌,
  keep,
}
use unikernel_syscall_monito.Base.Text.{Text}
use unikernel_syscall_monito.Py.Strip.{is_space}

unfoldable pub is_ident_start : ℕ → Bool
is_ident_start c = between b'a' b'z' c || between b'A' b'Z' c || c == b'_'

unfoldable pub is_ident : ℕ → Bool
unfolding is_ident_start
is_ident c = is_ident_start c || between b'0' b'9' c

-- `\s*=`
unfoldable pub equals_next : Text → Bool
equals_next [] = false
equals_next (c ∷ s) = c == b'=' || (is_space c && equals_next s)

-- `.*\)\s*=`
unfoldable pub closes : Text → Bool
closes [] = false
closes (c ∷ s) = (c == b')' && equals_next s) || closes s

-- The rest of an identifier and its parenthesis. An identifier holds no parenthesis, so only the
-- longest one can be followed by it.
unfoldable pub name_rest : Text → Option Text
name_rest [] = none
name_rest (c ∷ s) =
    let more = name_rest s in
    if is_ident c
    then (elim more [ none ↦ none | some n ↦ some (c ∷ n) ])
    else if c == b'(' && closes s
    then some []
    else none

abbrev prepend : ℕ → Option Text → Option Text
prepend c none = none
prepend c (some n) = some (c ∷ n)

abbrev or_else : Option Text → Option Text → Option Text
or_else none later = later
or_else (some n) later = some n

-- The group of the leftmost match.
unfoldable pub search_line : Text → Option Text
search_line [] = none
search_line (c ∷ s) =
    let later = search_line s in
    if is_ident_start c then or_else (prepend c (name_rest s)) later else later

-- `parse_strace_log`, with `str.isprintable` of one character as a parameter.
unfoldable pub parse_strace_log : (ℕ → Bool) → List Text → List Text
parse_strace_log is_printable [] = []
parse_strace_log is_printable (line ∷ lines) =
    let names = parse_strace_log is_printable lines in
    elim (search_line (keep is_printable line)) [ none ↦ names | some n ↦ n ∷ names ]
