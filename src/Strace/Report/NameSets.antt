-- ===== src/Strace/Report/NameSets.antt =====
-- The abstract view of a sequence of names in the report of validate_strace.py: the set of them.
use mathlib.Core.List.{is_set}
use mathlib.Core.Quot.Quotient
use mathlib.Core.Quot.{Setoid}
use native.Mathlib.Nat.{ℕ_set}
use unikernel_syscall_monito.Base.{◌≡◌, ◌↔◌, refl, ap, sym, ◌∙◌, List, [], ◌∷◌, ◌++◌}
use unikernel_syscall_monito.Base.Text.{Text}
use unikernel_syscall_monito.Strace.Report.{
  only_in, Message, only_in_strace, only_in_vmi, full_coverage, when_any, when_none, report_names,
}
use unikernel_syscall_monito.Strace.Report.Names.{SameNames, report_names_iff}
use unikernel_syscall_monito.Strace.Report.Sets.{only_in-SameNames}

abbrev pub same_names : Setoid {0, 0} (List Text)
same_names = record {
  r = SameNames;
  iseqv = record {
    refl = λ xs n. refl;
    symm = λ xs ys h n. sym (h n);
    trans = λ xs ys zs h k n. h n ∙ k n;
  };
}

-- A sequence without its order and repetitions.
abbrev pub NameSet : Type 0
NameSet = Quotient.Quotient same_names

abbrev pub name_set : List Text → NameSet
name_set = Quotient.mk same_names

-- The sorted names of a set that another lacks.
abbrev difference : NameSet → NameSet → List Text
difference =
    Quotient.lift₂ same_names same_names (is_set (is_set ℕ_set)) only_in
      (λ xs ys xs' ys' h k. only_in-SameNames xs ys xs' ys' h k)

-- The messages, of the sets alone.
abbrev pub report_sets : NameSet → NameSet → List Message
report_sets a b =
    when_any only_in_strace (difference a b)
    ++ when_any only_in_vmi (difference b a)
    ++ when_none (difference a b) (difference b a)

difference_lem : (xs ys : List Text) → difference (name_set xs) (name_set ys) ≡ only_in xs ys
difference_lem xs ys =
    Quotient.lift₂-mk same_names same_names (is_set (is_set ℕ_set)) only_in _ xs ys

report_sets_lem : (xs ys : List Text) → report_sets (name_set xs) (name_set ys) ≡ report_names xs ys
unfolding report_names
report_sets_lem xs ys = rw (difference_lem xs ys, difference_lem ys xs) refl

-- The messages are a function of the set of the guest's names and the set of the captured ones,
-- and they are the one of a full match exactly if these sets are equal.
pub report_names-NameSet :
    (strace_seq vmi_seq : List Text)
    → (report_names strace_seq vmi_seq ≡ report_sets (name_set strace_seq) (name_set vmi_seq))
      × ((report_names strace_seq vmi_seq ≡ full_coverage ∷ [])
          ↔ (name_set strace_seq ≡ name_set vmi_seq))
report_names-NameSet s v = (
  sym (report_sets_lem s v),
  (
    (λ h. Quotient.sound same_names ((report_names_iff s v).0 h)),
    (λ e.
        sym (report_sets_lem s v)
        ∙ ap (λ a. report_sets a (name_set v)) e
        ∙ report_sets_lem v v
        ∙ (report_names_iff v v).1 (λ n. refl)),
  ),
)
