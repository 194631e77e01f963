-- ===== src/Monitor/Table/Laws.antt =====
-- The rows of `SYSCALL_TABLE` taken together, and the lookup.
use unikernel_syscall_monito.Base.{
  ℕ, ◌≤◌, ◌≡◌, refl, sym, ap, ◌∙◌, Bool, true, false, ◌&&◌, not, Option, none, some, List, [], ◌∷◌,
  ◌++◌, arith, all, drop, leb, ◌==◌, if◌then◌else◌, Option-cases, inl, inr,
}
use mathlib.Core.Option.{some-injective}
use unikernel_syscall_monito.Base.Int.{ℤ, pos, negsuc}
use unikernel_syscall_monito.Base.Text.{Text, codes, text_eq}
use unikernel_syscall_monito.Py.Number.{int, str, int-str}
use unikernel_syscall_monito.Py.Strip.{starts_with}
use unikernel_syscall_monito.Monitor.Table.{Entry, syscall_table, find, lookup_syscall}

-- The number of a row by its name.
find_name : Text → List Entry → Option ℕ
find_name name [] = none
find_name name (e ∷ es) = if text_eq name e.name then some e.num else find_name name es

abbrev is_number : Option ℕ → ℕ → Bool
is_number none n = false
is_number (some m) n = m == n

-- At most six arguments, a name that is no default name and that leads back to the number.
is_proper : Entry → Bool
is_proper e =
    leb e.argc 6
    && not (starts_with e.name (codes "syscall_"))
    && is_number (find_name e.name syscall_table) e.num

table-is_proper : all is_proper syscall_table ≡ true
unfolding is_proper find_name starts_with syscall_table
table-is_proper = refl

pub find_sound :
    (n : ℕ) (p : Entry → Bool) (es : List Entry) (e : Entry)
    → all p es ≡ true
    → find n es ≡ some e
    → (p e ≡ true) × (e.num ≡ n)
unfolding find
find_sound n p [] e a h = cc
find_sound n p (e' ∷ es) e a h = ground (arith, find_sound n p es e)

-- Reads the number back off a name.
number_of : Text → Option ℤ
number_of name =
    if starts_with name (codes "syscall_")
    then int (drop 8 name)
    else elim (find_name name syscall_table) [ none ↦ none | some n ↦ some (pos n) ]

number_of-default : (rax : ℤ) → number_of (codes "syscall_" ++ str rax) ≡ some rax
unfolding number_of starts_with
number_of-default rax = int-str rax

record IsProper (e : Entry) : Type 0 where
  few : e.argc ≤ 6
  named : starts_with e.name (codes "syscall_") ≡ false
  leads : find_name e.name syscall_table ≡ some e.num

is_number_lem : (o : Option ℕ) (n : ℕ) → is_number o n ≡ true → o ≡ some n
is_number_lem none n h = cc
is_number_lem (some m) n h = ground arith

is_proper_lem : (e : Entry) → is_proper e ≡ true → IsProper e
unfolding is_proper
is_proper_lem e h = record {
  few = ground arith;
  named = ground arith;
  leads = is_number_lem (find_name e.name syscall_table) e.num (ground arith);
}

find-IsProper : (n : ℕ) (e : Entry) → find n syscall_table ≡ some e → IsProper e × (e.num ≡ n)
find-IsProper n e h =
    let (proper, same) = find_sound n is_proper syscall_table e table-is_proper h in
    (is_proper_lem e proper, same)

pub lookup-none :
    (n : ℕ)
    → find n syscall_table ≡ none
    → lookup_syscall (pos n) ≡ (codes "syscall_" ++ str (pos n), 6)
unfolding lookup_syscall
lookup-none n h = rw (h, lookup_syscall)

pub lookup-some :
    (n : ℕ) (e : Entry) → find n syscall_table ≡ some e → lookup_syscall (pos n) ≡ (e.name, e.argc)
unfolding lookup_syscall
lookup-some n e h = rw (h, lookup_syscall)

number_of-name : (e : Entry) → IsProper e → number_of e.name ≡ some (pos e.num)
unfolding number_of
number_of-name e p = rw (p.named, p.leads)

number_of-lookup : (rax : ℤ) → number_of (lookup_syscall rax).0 ≡ some rax
number_of-lookup (negsuc n) = unfold lookup_syscall in number_of-default (negsuc n)
number_of-lookup (pos n) = elim (Option-cases (find n syscall_table)) [
  | inl h ↦ rw (lookup-none n h) (number_of-default (pos n))
  | inr (e, h) ↦
      let (proper, same) = find-IsProper n e h in
      rw (lookup-some n e h) (number_of-name e proper ∙ ap (λ k. some (pos k)) same)
]

-- Two syscall numbers with one name in the log are the same number, whether the table has them
-- or not, so the name of an event determines its number.
pub lookup_syscall-injective : (a b : ℤ) → (lookup_syscall a).0 ≡ (lookup_syscall b).0 → a ≡ b
lookup_syscall-injective a b h =
    some-injective a b (sym (number_of-lookup a) ∙ ap number_of h ∙ number_of-lookup b)

-- No syscall has more arguments than there are argument registers.
pub lookup_syscall-argc-le : (rax : ℤ) → (lookup_syscall rax).1 ≤ 6
lookup_syscall-argc-le (negsuc n) = unfold lookup_syscall in omega arith
lookup_syscall-argc-le (pos n) = elim (Option-cases (find n syscall_table)) [
  | inl h ↦ rw (lookup-none n h) (omega arith)
  | inr (e, h) ↦ rw (lookup-some n e h) (find-IsProper n e h).0.few
]
