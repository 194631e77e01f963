-- ===== src/Monitor/Handler.antt =====
-- `SyscallBreakpoint`: what `stop` does at each hit of the breakpoint.
pub mod Captured
pub mod Event
pub mod Filter
pub mod Laws
pub mod Line
pub mod Records
pub mod Registers
use unikernel_syscall_monito.Base.{
  ℕ, ◌+◌, Bool, true, false, ◌||◌, not, Option, none, some, List, [], ◌∷◌, ◌++◌, if◌then◌else◌,
}
use unikernel_syscall_monito.Base.Int.{ℤ, pos, at_least}
use unikernel_syscall_monito.Base.Result.{Result, ok, raise, value_error}
use unikernel_syscall_monito.Base.Text.{Text, codes}
use unikernel_syscall_monito.Py.Number.{str}
use unikernel_syscall_monito.Monitor.NrSet.{Config, member}
use unikernel_syscall_monito.Monitor.Handler.Event.{Hit, event_line}

-- The object, with what it did to its surroundings: the lines of the log file, whether the file
-- is open, the lines on the standard output and the commands given to gdb.
pub record Breakpoint : Type 0 where
  pub log : List Text
  pub log_open : Bool
  pub event_count : ℕ
  pub printed : List Text
  pub commands : List Text

-- `__init__`, which opens the log to append to what it holds.
unfoldable pub new_breakpoint : List Text → Text → Breakpoint
new_breakpoint old_log log_path = record {
  log = old_log;
  log_open = true;
  event_count = 0;
  printed = (codes "[monitor.py] logging to " ++ log_path) ∷ [];
  commands = [];
}

-- `INCLUDE_NRS is not None and rax not in INCLUDE_NRS`
unfoldable pub is_outside : ℤ → Option (List ℤ) → Bool
is_outside rax none = false
is_outside rax (some ns) = not (member rax ns)

-- The test on INCLUDE_NRS and EXCLUDE_NRS.
unfoldable pub is_filtered : Config → ℤ → Bool
unfolding is_outside
is_filtered c rax = is_outside rax c.include || member rax c.exclude

-- `self._log.close()`, then `detach` and `quit`.
unfoldable pub finish : ℤ → Breakpoint → Breakpoint
finish n b = record b {
  log_open = false;
  printed =
      b.printed
      ++ (codes "[monitor.py] reached VMI_MAX_EVENTS=" ++ str n ++ codes ", detaching") ∷ [];
  commands = b.commands ++ codes "detach" ∷ codes "quit" ∷ [];
}

unfoldable pub check_limit : Option ℤ → Breakpoint → Breakpoint
check_limit none b = b
check_limit (some n) b = if at_least b.event_count n then finish n b else b

-- The write to the log, the line on the standard output and the count.
unfoldable pub logged : Text → Breakpoint → Breakpoint
logged line b = record b {
  log = b.log ++ (line ++ 10 ∷ []) ∷ [];
  event_count = b.event_count + 1;
  printed = b.printed ++ (codes "[monitor.py] " ++ line) ∷ [];
}

-- A write to a closed file is a `ValueError`, before the event is counted.
unfoldable pub write_event : Config → Text → Breakpoint → Result Bool × Breakpoint
write_event c line b =
    if b.log_open
    then (ok false, check_limit c.max_events (logged line b))
    else (raise value_error, b)

-- `stop`: false tells gdb to go on with the guest.
unfoldable pub stop : Config → Hit → Breakpoint → Result Bool × Breakpoint
unfolding write_event
stop c hit b = if is_filtered c hit.rax then (ok false, b) else write_event c (event_line hit) b

-- The breakpoint after a sequence of hits.
unfoldable pub run : Config → List Hit → Breakpoint → Breakpoint
run c [] b = b
run c (hit ∷ hits) b = run c hits (stop c hit b).1
