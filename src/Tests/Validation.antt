-- ===== src/Tests/Validation.antt =====
-- monitor.py and validate_strace.py together, on one logged call.
use unikernel_syscall_monito.Base.{
  ℕ, ◌≡◌, ◌≢◌, ◌↔◌, refl, true, List, [], ◌∷◌, ◌++◌, arith, length, map, inl, Bool,
}
use unikernel_syscall_monito.Base.Text.{Text, codes}
use unikernel_syscall_monito.Base.Result.{ok}
use unikernel_syscall_monito.Json.Value.{str}
use unikernel_syscall_monito.Monitor.Handler.{run, new_breakpoint, is_filtered}
use unikernel_syscall_monito.Monitor.Table.{lookup_syscall, find, syscall_table}
use unikernel_syscall_monito.Strace.Capture.{parse_vmi_jsonl}
use unikernel_syscall_monito.Strace.Line.{
  search_line, is_ident_start, name_rest, is_ident, closes, equals_next, parse_strace_log,
}
use unikernel_syscall_monito.Py.Strip.{is_space}
use unikernel_syscall_monito.Strace.Main.{Difflib, report}
use unikernel_syscall_monito.Strace.Main.Matches.{IsSequenceMatcher, IsPart}
use unikernel_syscall_monito.Strace.Main.Whole.{Says, report-IsPart}
use unikernel_syscall_monito.Strace.Main.Run.{AreTraced, logged_names, report-run}
use unikernel_syscall_monito.Tests.Captures.{settings, three_hits, instant-IsReal}

abbrev printable : ℕ → Bool
printable c = true

-- The guest has made one call before.
abbrev boot_lines : List Text
boot_lines = codes "Booting (x)" ∷ codes "brk(0) = 0x402421000" ∷ []

abbrev call_lines : List Text
call_lines = codes "  gettimeofday(0x1000182860, 0) = 0" ∷ []

abbrev name : Text
name = codes "gettimeofday"

abbrev traced : List Text
traced = codes "brk" ∷ name ∷ []

abbrev difflib : Difflib
difflib = record {
  ratio = λ s v. codes "0.667";
  get_matching_blocks =
      λ s v. record { a = 1; b = 0; size = 1 } ∷ record { a = 2; b = 1; size = 0 } ∷ [];
  unified_diff = λ s v. codes "-brk" ∷ [];
}

difflib-IsSequenceMatcher :
    IsSequenceMatcher traced (name ∷ []) (difflib.get_matching_blocks traced (name ∷ []))
difflib-IsSequenceMatcher = record {
  matches = (
    record { within_a = omega arith; within_b = omega arith; agrees = refl },
    (record { within_a = omega arith; within_b = omega arith; agrees = refl }, tt),
  );
  longest = λ y m. inl (omega (arith, m.within_b));
}

name_ne_nil : (n : Text) → n ∷ [] ≢ []
name_ne_nil n e = cc e

report-IsPart_example : Says 1 1 (report difflib traced (name ∷ [])) ↔ IsPart (name ∷ []) traced
report-IsPart_example =
    report-IsPart difflib traced (name ∷ []) difflib-IsSequenceMatcher (name_ne_nil name)

one_name : logged_names settings three_hits ≡ name ∷ []
unfolding is_filtered lookup_syscall find syscall_table
one_name = refl

traced_names : parse_strace_log printable (boot_lines ++ (call_lines ++ [])) ≡ traced
unfolding parse_strace_log search_line is_ident_start name_rest is_ident closes equals_next is_space
traced_names = refl

call_lines-AreTraced : AreTraced printable (logged_names settings three_hits) call_lines
unfolding is_filtered lookup_syscall find syscall_table is_ident_start is_ident is_space
call_lines-AreTraced = (
  record {
    front = codes "  ";
    arguments = codes "0x1000182860, 0";
    spaces = codes " ";
    rest = codes " 0";
    shape = refl;
    noise = (refl, (refl, tt));
    named = (
      refl,
      (refl, (refl, (refl, (refl, (refl, (refl, (refl, (refl, (refl, (refl, (refl, tt))))))))))),
    );
    blank = (refl, tt);
  },
  tt,
)

report-run_example :
    (parse_vmi_jsonl (run settings three_hits (new_breakpoint [] (codes "log"))).log
      ≡ ok (map str (logged_names settings three_hits)))
    × Says (length (logged_names settings three_hits)) (length (logged_names settings three_hits)) (
        report difflib
          (parse_strace_log printable (boot_lines ++ (call_lines ++ [])))
          (logged_names settings three_hits))
unfolding is_filtered lookup_syscall find syscall_table parse_strace_log search_line is_ident_start
    name_rest is_ident closes equals_next is_space
report-run_example =
    report-run settings three_hits (codes "log") difflib printable boot_lines call_lines []
      (instant-IsReal, (instant-IsReal, (instant-IsReal, tt))) call_lines-AreTraced
      (name_ne_nil name) difflib-IsSequenceMatcher
