-- ===== src/Monitor/NrSet.antt =====
-- `_parse_nr_set` and the settings of monitor.py.
pub mod Laws
use unikernel_syscall_monito.Base.{
  ℕ, Bool, true, false, ◌||◌, not, Option, none, some, List, [], ◌∷◌, any, if◌then◌else◌,
}
use unikernel_syscall_monito.Base.Int.{ℤ, int_eq}
use unikernel_syscall_monito.Base.Result.{Result, ok, raise, value_error, ◌>>=◌}
use unikernel_syscall_monito.Base.Text.{Text}
use unikernel_syscall_monito.Py.Number.{int}
use unikernel_syscall_monito.Py.Split.{split}
use unikernel_syscall_monito.Py.Strip.{strip}

-- `bool(s)`
abbrev pub is_empty : Text → Bool
is_empty [] = true
is_empty (c ∷ s) = false

-- `int(s)` with its exception.
unfoldable pub to_int : Text → Result ℤ
to_int s = elim (int s) [ none ↦ raise value_error | some n ↦ ok n ]

-- `{int(x) for x in parts if x.strip()}`, as the list of its members.
unfoldable pub to_ints : List Text → Result (List ℤ)
to_ints [] = ok []
to_ints (x ∷ xs) =
    let rest = to_ints xs in
    let more : Result (List ℤ) = (do n ← to_int x; ns ← rest; ok (n ∷ ns)) in
    if is_empty (strip x) then rest else more

-- `none` outside is an unset variable, `none` inside stands for no restriction.
unfoldable pub parse_nr_set : Option Text → Result (Option (List ℤ))
unfolding to_ints
parse_nr_set none = ok none
parse_nr_set (some raw) =
    if is_empty (strip raw) then ok none else do ns ← to_ints (split b',' raw); ok (some ns)

abbrev pub member : ℤ → List ℤ → Bool
member n = any (int_eq n)

pub record Config : Type 0 where
  pub include : Option (List ℤ)
  pub exclude : List ℤ
  pub max_events : Option ℤ

abbrev pub or_no_numbers : Option (List ℤ) → List ℤ
or_no_numbers none = []
or_no_numbers (some ns) = ns

unfoldable pub parse_max_events : Option Text → Result (Option ℤ)
parse_max_events none = ok none
parse_max_events (some []) = ok none
parse_max_events (some (c ∷ s)) = do n ← to_int (c ∷ s); ok (some n)

-- The module's settings from VMI_INCLUDE_NRS, VMI_EXCLUDE_NRS and VMI_MAX_EVENTS.
unfoldable pub read_config : Option Text → Option Text → Option Text → Result Config
unfolding parse_nr_set parse_max_events
read_config include exclude max_events = do
  i ← parse_nr_set include
  e ← parse_nr_set exclude
  m ← parse_max_events max_events
  ok (record { include = i; exclude = or_no_numbers e; max_events = m })
