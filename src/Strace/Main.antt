-- ===== src/Strace/Main.antt =====
-- What `main` of validate_strace.py prints of the two sequences, whose names are texts.
pub mod Matches
pub mod Whole
pub mod Run
use unikernel_syscall_monito.Base.{ℕ, ◌+◌, Option, none, some, List, [], ◌∷◌, ◌++◌, length, map}
use unikernel_syscall_monito.Base.Text.{Text}
use unikernel_syscall_monito.Strace.Report.{Block, Message, longest, run_of, report_names}

-- What difflib makes of two sequences: the ratio as it is printed, the matching blocks, and the
-- lines of the unified diff.
pub record Difflib : Type 0 where
  pub ratio : List Text → List Text → Text
  pub get_matching_blocks : List Text → List Text → List Block
  pub unified_diff : List Text → List Text → List Text

-- `longest.size / len(vmi_seq) if vmi_seq else 0.0`
pub data Share : Type 0 where
  zero_share : Share
  fraction : ℕ → ℕ → Share

pub data Printed : Type 0 where
  vmi_count : ℕ → Printed
  strace_count : ℕ → Printed
  similarity : Text → Printed
  -- the size, the slices of strace_seq and vmi_seq, and the names
  longest_run : ℕ → ℕ × ℕ → ℕ × ℕ → List Text → Printed
  share : ℕ → ℕ → Share → Printed
  identical : Printed
  diff_line : Text → Printed
  message : Message → Printed

unfoldable pub coverage : ℕ → List Text → Share
coverage size [] = zero_share
coverage size (n ∷ names) = fraction size (length (n ∷ names))

unfoldable pub print_longest : List Text → List Text → Option Block → List Printed
unfolding coverage
print_longest strace_seq vmi_seq none = []
print_longest strace_seq vmi_seq (some x) =
    longest_run x.size (x.a, x.a + x.size) (x.b, x.b + x.size) (run_of strace_seq x.a x.size)
    ∷ share x.size (length vmi_seq) (coverage x.size vmi_seq)
    ∷ []

unfoldable pub print_diff : List Text → List Printed
print_diff [] = identical ∷ []
print_diff (line ∷ lines) = diff_line line ∷ map diff_line lines

unfoldable pub report : Difflib → List Text → List Text → List Printed
unfolding print_longest print_diff
report lib strace_seq vmi_seq =
    vmi_count (length vmi_seq)
    ∷ strace_count (length strace_seq)
    ∷ similarity (lib.ratio strace_seq vmi_seq)
    ∷ (print_longest strace_seq vmi_seq (longest (lib.get_matching_blocks strace_seq vmi_seq))
        ++ (print_diff (lib.unified_diff strace_seq vmi_seq)
            ++ map message (report_names strace_seq vmi_seq)))
