-- ===== src/Inline/Tail/Lines.antt =====
-- `readline`, and the complete lines of a text.
use unikernel_syscall_monito.Base.{
  ℕ, suc, ◌≤◌, Bool, length, ◌≡◌, ◌≢◌, refl, ap, inl, inr, true, false, List, [], ◌∷◌, ◌++◌, ◌==◌,
  if◌then◌else◌, arith, append_assoc, Bool-cases,
}
use unikernel_syscall_monito.Base.Text.{Text}
use unikernel_syscall_monito.Py.Split.{Lacks}
use unikernel_syscall_monito.Py.Strip.{ends_with}

-- The text up to its first newline, that included, or all of it.
unfoldable pub read_line : Text → Text
read_line [] = []
read_line (c ∷ s) = if c == 10 then c ∷ [] else c ∷ read_line s

lines_from : Text → Text → List Text
lines_from cur [] = []
lines_from cur (c ∷ s) =
    let next = lines_from [] s in
    let more = lines_from (cur ++ c ∷ []) s in if c == 10 then (cur ++ 10 ∷ []) ∷ next else more

-- The lines of a text that end in a newline, with it. An unfinished line at the end is none.
unfoldable pub complete_lines : Text → List Text
unfolding lines_from
complete_lines = lines_from []

-- What a read finds: a line with more behind it, or an unfinished line and nothing more.
pub data Reads (s : Text) : Type 0 where
  line :
      (body rest : Text)
      → Lacks 10 body
      → read_line s ≡ body ++ 10 ∷ []
      → s ≡ body ++ 10 ∷ rest
      → Reads s
  unfinished : Lacks 10 s → read_line s ≡ s → Reads s

Reads-cons : (c : ℕ) (s : Text) → c ≢ 10 → Reads s → Reads (c ∷ s)
unfolding read_line
Reads-cons c s h (line body rest l e e') =
    line (c ∷ body) rest (h, l) (ground arith) (ap (λ t. c ∷ t) e')
Reads-cons c s h (unfinished l e) = unfinished (h, l) (ground arith)

pub Reads-all : (s : Text) → Reads s
unfolding read_line
Reads-all [] = unfinished tt refl
Reads-all (c ∷ s) = elim (Bool-cases (c == 10)) [
  | inl h ↦ line [] s tt (ground arith) (ground arith)
  | inr h ↦ Reads-cons c s (ground arith) (Reads-all s)
]

lines_from-append :
    (cur body rest : Text)
    → Lacks 10 body
    → lines_from cur (body ++ 10 ∷ rest) ≡ (cur ++ (body ++ 10 ∷ [])) ∷ lines_from [] rest
unfolding lines_from
lines_from-append cur [] rest h = refl
lines_from-append cur (c ∷ body) rest h = ground (
  arith,
  lines_from-append (cur ++ c ∷ []) body rest h.1,
  append_assoc cur (c ∷ []) (body ++ 10 ∷ []),
)

pub complete_lines-append :
    (body rest : Text)
    → Lacks 10 body
    → complete_lines (body ++ 10 ∷ rest) ≡ (body ++ 10 ∷ []) ∷ complete_lines rest
unfolding complete_lines
complete_lines-append body rest h = lines_from-append [] body rest h

lines_from_unfinished : (cur s : Text) → Lacks 10 s → lines_from cur s ≡ []
unfolding lines_from
lines_from_unfinished cur [] h = refl
lines_from_unfinished cur (c ∷ s) h = ground (arith, lines_from_unfinished (cur ++ c ∷ []) s h.1)

pub complete_lines_unfinished : (s : Text) → Lacks 10 s → complete_lines s ≡ []
unfolding complete_lines
complete_lines_unfinished s h = lines_from_unfinished [] s h

pub ends_with_line : (body : Text) → ends_with (body ++ 10 ∷ []) (10 ∷ []) ≡ true
unfolding ends_with
ends_with_line [] = refl
ends_with_line (c ∷ body) = ground (arith, ends_with_line body)

pub ends_with_unfinished : (s : Text) → Lacks 10 s → ends_with s (10 ∷ []) ≡ false
unfolding ends_with
ends_with_unfinished [] h = refl
ends_with_unfinished (c ∷ s) h = ground (arith, ends_with_unfinished s h.1)

-- `sum(1 for _ in open(path))` of a text: also an unfinished line at its end counts.
unfoldable pub count_from : Bool → Text → ℕ
count_from begun [] = if begun then 1 else 0
count_from begun (c ∷ s) =
    let next = count_from false s in
    let more = count_from true s in if c == 10 then suc next else more

unfoldable pub count_lines : Text → ℕ
unfolding count_from
count_lines = count_from false

complete_le_count :
    (cur s more : Text) (begun : Bool) → length (lines_from cur s) ≤ count_from begun (s ++ more)
unfolding lines_from count_from
complete_le_count cur [] more begun = omega arith
complete_le_count cur (c ∷ s) more begun =
    ground (arith, complete_le_count [] s more false, complete_le_count (cur ++ c ∷ []) s more true)

-- A text has at least as many lines as the complete ones before any more of it.
pub complete_lines-le-count_lines :
    (s more : Text) → length (complete_lines s) ≤ count_lines (s ++ more)
unfolding complete_lines count_lines
complete_lines-le-count_lines s more = complete_le_count [] s more false
