-- ===== src/Strace/Capture/Run.antt =====
-- A whole run of monitor.py, and what validate_strace.py makes of the log that it leaves.
use unikernel_syscall_monito.Base.{◌≡◌, ap, ◌∙◌, List, ◌++◌, map, All}
use unikernel_syscall_monito.Base.Result.{ok}
use unikernel_syscall_monito.Base.Text.{Text}
use unikernel_syscall_monito.Json.Value.{Json}
use unikernel_syscall_monito.Json.RoundTrip.Numbers.{IsReal}
use unikernel_syscall_monito.Monitor.NrSet.{Config}
use unikernel_syscall_monito.Monitor.Handler.{run, new_breakpoint}
use unikernel_syscall_monito.Monitor.Handler.Event.{Hit}
use unikernel_syscall_monito.Monitor.Handler.Laws.{wanted, limited, log_line}
use unikernel_syscall_monito.Monitor.Handler.Captured.{found, All-found, run-log}
use unikernel_syscall_monito.Strace.Capture.{parse_vmi_jsonl}
use unikernel_syscall_monito.Strace.Capture.Events.{
  hit_name, parse_vmi_jsonl-append, parse_vmi_jsonl-hits,
}

-- If the names `old` are read from the log that a run appends to, and the clock gives finite floats,
-- what is read from the log after the run is those names and then, in order, the names of the hits
-- that the settings let through, up to the limit.
pub parse_vmi_jsonl-run :
    (c : Config) (hits : List Hit) (old_log : List Text) (log_path : Text) (old : List Json)
    → parse_vmi_jsonl old_log ≡ ok old
    → All (λ h. IsReal h.now) hits
    → parse_vmi_jsonl (run c hits (new_breakpoint old_log log_path)).log
      ≡ ok (old ++ map hit_name (limited c.max_events (wanted c hits)))
parse_vmi_jsonl-run c hits old_log log_path old h r =
    ap parse_vmi_jsonl (run-log c hits old_log log_path)
    ∙ parse_vmi_jsonl-append old_log (map log_line (found c hits)) old (map hit_name (found c hits))
        h (parse_vmi_jsonl-hits (found c hits) (All-found (λ h. IsReal h.now) c hits r))
