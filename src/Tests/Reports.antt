-- ===== src/Tests/Reports.antt =====
-- The report of validate_strace.py at concrete sequences.
use mathlib.Core.Quot.Quotient
use unikernel_syscall_monito.Base.{
  ◌≡◌, ◌≤◌, ◌↔◌, refl, List, [], ◌∷◌, arith, ◌||◌, ◌&&◌, not, Bool, false, length,
}
use unikernel_syscall_monito.Base.Text.{Text, codes, text_eq}
use unikernel_syscall_monito.Strace.Report.{
  is_in, only_in, only_in_strace, only_in_vmi, full_coverage, report_names, Block, longest,
}
use unikernel_syscall_monito.Strace.Report.Names.{
  SameNames, IsSorted, only_in_lem, report_names_iff,
}
use unikernel_syscall_monito.Strace.Report.NameSets.{
  same_names, name_set, report_sets, report_names-NameSet,
}
use unikernel_syscall_monito.Strace.Report.Longest.{IsLongest, longest-IsLongest}

-- The guest's own trace and two captures.
abbrev traced : List Text
traced = codes "read" ∷ codes "write" ∷ codes "read" ∷ []

abbrev seen : List Text
seen = codes "write" ∷ codes "read" ∷ []

abbrev partly_seen : List Text
partly_seen = codes "close" ∷ codes "read" ∷ []

partly :
    report_names traced partly_seen
    ≡ only_in_strace (codes "write" ∷ []) ∷ only_in_vmi (codes "close" ∷ []) ∷ []
unfolding report_names
partly = refl

either : (a b : Bool) → (a || (b || (a || false))) ≡ (b || (a || false))
either a b = ground arith

same : SameNames traced seen
unfolding is_in
same n = either (text_eq n (codes "read")) (text_eq n (codes "write"))

report_names_iff_example : (report_names traced seen ≡ full_coverage ∷ []) ↔ SameNames traced seen
report_names_iff_example = report_names_iff traced seen

same_sets : name_set traced ≡ name_set seen
same_sets = Quotient.sound same_names same

report_names-NameSet_example :
    (report_names traced seen ≡ report_sets (name_set traced) (name_set seen))
    × ((report_names traced seen ≡ full_coverage ∷ []) ↔ (name_set traced ≡ name_set seen))
report_names-NameSet_example = report_names-NameSet traced seen

only_in_lem_example :
    IsSorted (only_in traced partly_seen)
    × ((n : Text)
        → is_in n (only_in traced partly_seen) ≡ (is_in n traced && not (is_in n partly_seen)))
only_in_lem_example = only_in_lem traced partly_seen

abbrev blocks : List Block
blocks =
    record { a = 0; b = 1; size = 1 }
    ∷ record { a = 1; b = 0; size = 2 }
    ∷ record { a = 3; b = 2; size = 0 }
    ∷ []

abbrev best : Block
best = record { a = 1; b = 0; size = 2 }

longest-IsLongest_example : IsLongest traced seen blocks best × (best.size ≤ length seen)
longest-IsLongest_example =
    longest-IsLongest traced seen blocks best
      (
        record { within_a = omega arith; within_b = omega arith; agrees = refl },
        (
          record { within_a = omega arith; within_b = omega arith; agrees = refl },
          (record { within_a = omega arith; within_b = omega arith; agrees = refl }, tt),
        ),
      )
      (unfold longest in refl)
