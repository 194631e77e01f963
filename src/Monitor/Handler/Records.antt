-- ===== src/Monitor/Handler/Records.antt =====
-- The lines of monitor.py's log as records, which the live view of run_capture_inline.py reads too.
use unikernel_syscall_monito.Base.{
  arith, ◌≡◌, refl, some, List, [], ◌∷◌, ◌++◌, map, All, length, take, ◌-◌,
}
use unikernel_syscall_monito.Base.Text.{Text, codes}
use unikernel_syscall_monito.Json.Value.{int, str, arr, obj, Fields, get, real}
use unikernel_syscall_monito.Json.Loads.{loads, skip}
use unikernel_syscall_monito.Json.RoundTrip.Numbers.{IsReal}
use unikernel_syscall_monito.Json.RoundTrip.Values.{loads-dumps-append}
use unikernel_syscall_monito.Py.Hex.{int16}
use unikernel_syscall_monito.Monitor.NrSet.{Config}
use unikernel_syscall_monito.Monitor.Table.{lookup_syscall}
use unikernel_syscall_monito.Monitor.Handler.{run, new_breakpoint, pos}
use unikernel_syscall_monito.Monitor.Handler.Event.{Hit, make_event, event_json, event_line, texts}
use unikernel_syscall_monito.Monitor.Handler.Laws.{log_line, limited, wanted}
use unikernel_syscall_monito.Monitor.Handler.Line.{event_json-IsJson}
use unikernel_syscall_monito.Monitor.Handler.Registers.{length-args, int16-args}
use unikernel_syscall_monito.Monitor.Handler.Captured.{found, All-found, run-log}
use unikernel_syscall_monito.Inline.Format.Records.{
  AreTexts, empty, more, a_text, a_list, entry_only, IsRecord, a_decimal,
}

-- The event of a hit: the time, the number of the call, the name and as many arguments as the table
-- has for it, in them the registers in the order of the Linux calling convention, and how long the
-- handler took.
pub record IsCaptured (h : Hit) (evt : Fields) : Type 0 where
  pub is_record : IsRecord evt
  pub timed : get (codes "ts") evt ≡ some (real h.now)
  pub numbered : get (codes "num") evt ≡ some (int h.rax)
  pub named : get (codes "syscall") evt ≡ some (str (lookup_syscall h.rax).0)
  pub args : List Text
  pub listed : get (codes "args") evt ≡ some (arr (texts args))
  pub complete : length args ≡ (lookup_syscall h.rax).1
  pub registers :
      map int16 args
      ≡ map some (take (lookup_syscall h.rax).1 (h.rdi ∷ h.rsi ∷ h.rdx ∷ h.r10 ∷ h.r8 ∷ h.r9 ∷ []))
  pub latency : get (codes "handler_latency_ns") evt ≡ some (int (pos (h.t_exit - h.t_enter)))

texts-AreTexts : (ts : List Text) → AreTexts (texts ts)
texts-AreTexts [] = empty
texts-AreTexts (t ∷ ts) = more t (texts-AreTexts ts)

-- A line that decodes to such an event.
abbrev pub HoldsEvent : Hit → Text → Type 0
HoldsEvent h line = (evt : Fields) × (loads line ≡ some (obj evt)) × IsCaptured h evt

-- One line for each hit, in order.
abbrev pub HoldEvents : List Hit → List Text → Type 0
HoldEvents [] [] = Unit
HoldEvents (h ∷ hits) (line ∷ lines) = HoldsEvent h line × HoldEvents hits lines
HoldEvents _ _ = ⊥

log_line-HoldsEvent : (h : Hit) → IsReal h.now → HoldsEvent h (log_line h)
unfolding event_line event_json get skip make_event
log_line-HoldsEvent h r = (
  _,
  loads-dumps-append (event_json (make_event h)) (10 ∷ []) (event_json-IsJson h r) (ground arith)
      refl,
  record {
    is_record = record {
      ts = record { value = _; there = refl; typed = a_decimal _ };
      syscall = record { value = _; there = refl; typed = a_text _ };
      args = record {
        value = _;
        there = refl;
        typed = a_list (texts-AreTexts (make_event h).args);
      };
      outcome = entry_only refl refl;
    };
    timed = refl;
    numbered = refl;
    named = refl;
    args = (make_event h).args;
    listed = refl;
    complete = length-args h;
    registers = int16-args h;
    latency = refl;
  },
)

log_lines-HoldEvents :
    (hits : List Hit) → All (λ h. IsReal h.now) hits → HoldEvents hits (map log_line hits)
log_lines-HoldEvents [] r = tt
log_lines-HoldEvents (h ∷ hits) r = (log_line-HoldsEvent h r.0, log_lines-HoldEvents hits r.1)

-- A run leaves the old lines of the log as they are and adds one line for each hit that the settings
-- let through, in order, up to the limit; each decodes to a record of the documented fields and
-- types, with the time, the number of the call, the name and as many arguments as the table has for
-- it, from which rdi, rsi, rdx, r10, r8 and r9 are read back in this order in base 16, and the time
-- that the handler took; the clock gives finite floats.
pub run-HoldEvents :
    (c : Config) (hits : List Hit) (old_log : List Text) (log_path : Text)
    → All (λ h. IsReal h.now) hits
    → (lines : List Text) × ((run c hits (new_breakpoint old_log log_path)).log ≡ old_log ++ lines)
      × HoldEvents (limited c.max_events (wanted c hits)) lines
run-HoldEvents c hits old_log log_path r = (
  map log_line (found c hits),
  run-log c hits old_log log_path,
  log_lines-HoldEvents (found c hits) (All-found (λ h. IsReal h.now) c hits r),
)
