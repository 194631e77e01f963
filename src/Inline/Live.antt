-- ===== src/Inline/Live.antt =====
-- `run_interactive` with the generator that it reads from, while QEMU writes the log. Ctrl-C and the
-- deadline end it between two lines; a line that is handled is handled whole.
pub mod Laws
use unikernel_syscall_monito.Base.{ℕ, Bool, Option, none, some, List, if◌then◌else◌}
use unikernel_syscall_monito.Base.Result.{Result, ok, raise, keyboard_interrupt, ◌>>=◌}
use unikernel_syscall_monito.Base.Text.{Text}
use unikernel_syscall_monito.Inline.Format.{Os}
use unikernel_syscall_monito.Inline.Tail.{Tick, start, run}
use unikernel_syscall_monito.Inline.Tail.Lines.{count_lines}
use unikernel_syscall_monito.Inline.View.{View, run_interactive}

-- `for line in tail_lines(log_path, deadline)`, over the lines that were yielded until then.
unfoldable pub live : Os → Bool → Option Text → List Tick → Result View
live os show_after_ready file ticks =
    run_interactive os show_after_ready (run ticks (start file)).yielded

-- How the script watches the log, as it is at the start and as QEMU writes it: with `--quiet` it
-- sleeps, and then counts the lines of the log if there is one; otherwise it follows the log.
pub record Watch : Type 0 where
  pub quiet : Bool
  pub slept : Result {0} Unit
  pub os : Os
  pub show_after_ready : Bool
  pub log_file : Option Text
  pub ticks : List Tick

-- The lines of the log if it is there, or another number.
abbrev pub lines_or : ℕ → Option Text → ℕ
lines_or n none = n
lines_or n (some s) = count_lines s

-- `except KeyboardInterrupt`
abbrev pub or_interrupted : Result {0} Unit → Result {0} Unit
or_interrupted (raise keyboard_interrupt) = ok tt
or_interrupted r = r

unfoldable pub sleep_and_count : Watch → Result ℕ
sleep_and_count w = do
  u ← or_interrupted w.slept
  ok (lines_or 0 (run w.ticks (start w.log_file)).file)

unfoldable pub follow_and_count : Watch → Result ℕ
unfolding live
follow_and_count w = do v ← live w.os w.show_after_ready w.log_file w.ticks; ok v.n_events

-- `n_events`
unfoldable pub count_events : Watch → Result ℕ
unfolding sleep_and_count follow_and_count
count_events w = if w.quiet then sleep_and_count w else follow_and_count w
