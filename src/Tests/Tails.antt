-- ===== src/Tests/Tails.antt =====
-- The live view of run_capture_inline.py at concrete writes and reads.
use unikernel_syscall_monito.Base.{◌≡◌, refl, false, none, List, [], ◌∷◌, ◌++◌, arith}
use unikernel_syscall_monito.Base.Text.{Text, codes}
use unikernel_syscall_monito.Inline.Tail.{Tick, write, poll, content, start, tick, run, read_round}
use unikernel_syscall_monito.Inline.Tail.Laws.{run-yielded}
use unikernel_syscall_monito.Inline.Tail.Lines.{complete_lines, read_line}
use unikernel_syscall_monito.Inline.Tail.Progress.{polls, polls-yielded}
use unikernel_syscall_monito.Py.Strip.{ends_with}

-- QEMU writes a line in two pieces while the reader polls.
abbrev torn_writes : List Tick
torn_writes =
    poll false
    ∷ write (codes "{\"num\":")
    ∷ poll false
    ∷ poll false
    ∷ write (codes " 1}\n{\"n")
    ∷ poll false
    ∷ []

torn_line : (run torn_writes (start none)).yielded ≡ codes "{\"num\": 1}\n" ∷ []
unfolding run tick start read_round read_line ends_with
torn_line = refl

run-yielded_example :
    (rest : List Text) × (complete_lines (content (run torn_writes (start none)).file)
      ≡ (run torn_writes (start none)).yielded ++ rest)
run-yielded_example = run-yielded none torn_writes

polls-yielded_example :
    (run (polls 2) (run torn_writes (start none))).yielded
    ≡ complete_lines (content (run torn_writes (start none)).file)
unfolding run tick start read_round read_line ends_with complete_lines
polls-yielded_example = polls-yielded none torn_writes 2 refl refl (omega arith)
