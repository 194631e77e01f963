-- ===== src/Tests/Captures.antt =====
-- monitor.py at concrete hits.
use unikernel_syscall_monito.Monitor.Handler.Records.{HoldEvents, run-HoldEvents}
use unikernel_syscall_monito.Base.{
  ℕ, ◌≡◌, refl, true, false, some, List, [], ◌∷◌, ◌⊎◌, ◌↔◌, length, map, arith, all, between, All,
  inl, ◌++◌,
}
use unikernel_syscall_monito.Base.Int.{ℤ, pos, negsuc}
use unikernel_syscall_monito.Base.Result.{ok, raise, value_error}
use unikernel_syscall_monito.Base.Text.{codes, Text}
use unikernel_syscall_monito.Json.Value.{Real}
use unikernel_syscall_monito.Json.Dumps.{dumps}
use unikernel_syscall_monito.Py.Number.{str, hex, digits, int, IsDigit, signed, scan}
use unikernel_syscall_monito.Py.Split.{join, split}
use unikernel_syscall_monito.Py.Strip.{strip, is_space}
use unikernel_syscall_monito.Monitor.Table.{lookup_syscall, find, syscall_table}
use unikernel_syscall_monito.Monitor.Table.Laws.{lookup_syscall-injective}
use unikernel_syscall_monito.Monitor.NrSet.{Config, parse_nr_set, to_int}
use unikernel_syscall_monito.Monitor.NrSet.Laws.{parse_nr_set-join}
use unikernel_syscall_monito.Monitor.Handler.{
  new_breakpoint, is_filtered, stop, run, check_limit, logged, finish,
}
use unikernel_syscall_monito.Monitor.Handler.Event.{Hit, event_line, event_json, make_event}
use unikernel_syscall_monito.Monitor.Handler.Registers.{length-args}
use unikernel_syscall_monito.Monitor.Handler.Filter.{Listed, is_filtered_iff}
use unikernel_syscall_monito.Monitor.Handler.Laws.{
  captured, wanted, run-new_breakpoint, stop-continues, limited,
}
use unikernel_syscall_monito.Json.RoundTrip.Numbers.{IsReal}
use unikernel_syscall_monito.Strace.Capture.{parse_vmi_jsonl}
use unikernel_syscall_monito.Strace.Capture.Events.{hit_name}
use unikernel_syscall_monito.Strace.Capture.Run.{parse_vmi_jsonl-run}

abbrev pub instant : Real
instant = record {
  negative = false;
  whole = codes "1785136912";
  fraction = codes "4888623";
  exponent = [];
}

-- A hit with this number and its first two arguments.
abbrev hit : ℤ → ℕ → ℕ → Hit
hit rax a b = record {
  rax = rax;
  rdi = pos a;
  rsi = pos b;
  rdx = pos 1;
  r10 = pos 0xffffffff;
  r8 = pos 7;
  r9 = pos 0;
  now = instant;
  t_enter = 1000;
  t_exit = 1388783;
}

abbrev pub first_hit : Hit
first_hit = hit (pos 96) 0x1000182860 0

abbrev pub three_hits : List Hit
three_hits = first_hit ∷ hit (pos 228) 1 0x10001828b0 ∷ hit (pos 3) 7 0 ∷ []

-- Only gettimeofday and close, and one event.
abbrev pub settings : Config
settings = record { include = some (pos 96 ∷ pos 3 ∷ []); exclude = []; max_events = some (pos 1) }

line_as_logged :
    event_line first_hit
    ≡ codes
        "{\"ts\": 1785136912.4888623, \"num\": 96, \"syscall\": \"gettimeofday\", \"args\": [\"0x1000182860\", \"0x0\"], \"handler_latency_ns\": 1387783}"
unfolding event_line dumps event_json make_event digits lookup_syscall find syscall_table hex
line_as_logged = refl

run-new_breakpoint_example :
    run settings three_hits (new_breakpoint [] (codes "log"))
    ≡ captured (some (pos 1)) (wanted settings three_hits) (new_breakpoint [] (codes "log"))
run-new_breakpoint_example = run-new_breakpoint settings three_hits [] (codes "log")

-- The second of the two wanted hits comes after the limit and raises.
log_stays_closed :
    (stop settings first_hit (run settings three_hits (new_breakpoint [] []))).0 ≡ raise value_error
unfolding stop run new_breakpoint is_filtered check_limit logged finish
log_stays_closed = refl

stop-continues_example :
    (((stop settings first_hit (new_breakpoint [] [])).0 ≡ ok false)
      ↔ ((is_filtered settings (pos 96) ≡ true) ⊎ ((new_breakpoint [] []).log_open ≡ true)))
    × ((stop settings first_hit (new_breakpoint [] []) ≡ (raise value_error, new_breakpoint [] []))
        ↔ ((is_filtered settings (pos 96) ≡ false) × ((new_breakpoint [] []).log_open ≡ false)))
stop-continues_example = stop-continues settings first_hit (new_breakpoint [] [])

parse_nr_set-join_example :
    parse_nr_set (some (join b',' (map str (pos 0 ∷ pos 1 ∷ negsuc 4 ∷ []))))
    ≡ ok (some (pos 0 ∷ pos 1 ∷ negsuc 4 ∷ []))
parse_nr_set-join_example = parse_nr_set-join (pos 0) (pos 1 ∷ negsuc 4 ∷ [])

-- White space and empty parts are skipped; a variable of commas alone asks for no number at all.
lenient_nrs : parse_nr_set (some (codes " 0, 1,,232 ")) ≡ ok (some (pos 0 ∷ pos 1 ∷ pos 232 ∷ []))
unfolding parse_nr_set int strip split to_int signed scan is_space
lenient_nrs = refl

only_commas : parse_nr_set (some (codes ",")) ≡ ok (some [])
unfolding parse_nr_set int strip split is_space
only_commas = refl

bad_nrs : parse_nr_set (some (codes "read")) ≡ raise value_error
unfolding parse_nr_set int strip split to_int signed scan is_space
bad_nrs = refl

lookup_syscall-injective_example : pos 96 ≡ pos 96
lookup_syscall-injective_example = lookup_syscall-injective (pos 96) (pos 96) refl

length-args_example : length (make_event first_hit).args ≡ (lookup_syscall (pos 96)).1
length-args_example = length-args first_hit

is_filtered_iff_example :
    (is_filtered settings (pos 3) ≡ false)
    ↔ ((ns : List ℤ) → settings.include ≡ some ns → Listed (pos 3) ns) × ¬ Listed (pos 3) []
is_filtered_iff_example = is_filtered_iff settings (pos 3)

all-IsDigit : (s : Text) → all (between b'0' b'9') s ≡ true → All IsDigit s
all-IsDigit [] h = tt
all-IsDigit (c ∷ s) h = (ground arith, all-IsDigit s (ground arith))

pub instant-IsReal : IsReal instant
instant-IsReal = record {
  whole = ((λ e. absurd (omega (arith, e))), all-IsDigit (codes "1785136912") refl);
  fraction = all-IsDigit (codes "4888623") refl;
  exponent = tt;
  inexact = inl (λ e. cc e);
}

parse_vmi_jsonl-run_example :
    parse_vmi_jsonl (run settings three_hits (new_breakpoint [] (codes "log"))).log
    ≡ ok (map hit_name (limited (some (pos 1)) (wanted settings three_hits)))
parse_vmi_jsonl-run_example =
    parse_vmi_jsonl-run settings three_hits [] (codes "log") [] (unfold parse_vmi_jsonl in refl)
      (instant-IsReal, (instant-IsReal, (instant-IsReal, tt)))

run-HoldEvents_example :
    (lines : List Text) × ((run settings three_hits
        (new_breakpoint (codes "old" ∷ []) (codes "log"))).log
      ≡ (codes "old" ∷ []) ++ lines)
    × HoldEvents (limited (some (pos 1)) (wanted settings three_hits)) lines
run-HoldEvents_example =
    run-HoldEvents settings three_hits (codes "old" ∷ []) (codes "log")
      (instant-IsReal, (instant-IsReal, (instant-IsReal, tt)))
