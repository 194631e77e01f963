-- ===== src/Tests/Benches.antt =====
-- The benchmarks in concrete worlds.
use unikernel_syscall_monito.Base.{
  ◌≡◌, ◌≤◌, ◌↔◌, refl, Bool, not, Option, true, false, List, [], ◌∷◌, map, keep, arith, length,
}
use unikernel_syscall_monito.Base.Int.{pos}
use unikernel_syscall_monito.Base.Result.{
  Result, ok, raise, timeout_expired, value_error, zero_division_error,
}
use unikernel_syscall_monito.Base.Text.{Text, codes, text_eq}
use unikernel_syscall_monito.Py.Strip.{is_space, starts_with}
use unikernel_syscall_monito.Bench.Pattern.{find_figure}
use unikernel_syscall_monito.Bench.Ab.{run_ab, ab_patterns}
use unikernel_syscall_monito.Bench.Reps.{run_ab_reps, collect, is_tolerated, or_raise}
use unikernel_syscall_monito.Bench.Summary.{value_of, Stats, Statistics, summarize, keys}
use unikernel_syscall_monito.Bench.Overhead
use unikernel_syscall_monito.Bench.Overhead.{Library}
use unikernel_syscall_monito.Bench.Overhead.Laws.{owned, main-touches}
use unikernel_syscall_monito.Bench.Overhead.Gdb.{gdb_life, until_attached, main-talks}
use unikernel_syscall_monito.Bench.Inline
use unikernel_syscall_monito.Bench.Inline.Gdb as InlineGdb
use unikernel_syscall_monito.Bench.Inline.Laws.{lives, main-lives}
use unikernel_syscall_monito.Session.Host.{Host, is_running, stop_and_remove}
use unikernel_syscall_monito.Session.Script.{
  touches, talks, run_patched, stop_instance, remove_instance,
}
use unikernel_syscall_monito.Bench.Summary.Laws.{IsTotal, summarize-run_ab_reps}
use unikernel_syscall_monito.Gdbstub.Instance.{
  instance_is_running, loads_or_raise, instances, any_named,
}
use unikernel_syscall_monito.Json.Loads.{loads, at_end, read_value, skip, read_scalar}
use unikernel_syscall_monito.Bench.Compare.{
  Arithmetic, requests_per_sec, print_changes, throughput_change,
}
use unikernel_syscall_monito.Bench.Compare.Laws.{Summarized, is_some, print_changes_iff}
use Inline.{main, custom_environ}
use unikernel_syscall_monito.Tests.AbOutput.{report, is_digit, to_float, figures_read}
use unikernel_syscall_monito.Py.Number.{hex, digits}

-- Stand-ins that return a value as soon as there are enough of them.
abbrev some_mean : List Text → Result Text
some_mean [] = raise value_error
some_mean (x ∷ xs) = ok x

abbrev some_stdev : List Text → Result Text
some_stdev [] = raise value_error
some_stdev (x ∷ []) = raise value_error
some_stdev (x ∷ y ∷ xs) = ok y

abbrev statistics : Statistics Text
statistics = record { mean = some_mean; stdev = some_stdev; zero = codes "0.0" }

some_mean_total : (xs : List Text) → 1 ≤ length xs → (m : Text) × (some_mean xs ≡ ok m)
some_mean_total [] h = absurd (omega arith)
some_mean_total (x ∷ xs) h = (x, refl)

some_stdev_total : (xs : List Text) → 2 ≤ length xs → (d : Text) × (some_stdev xs ≡ ok d)
some_stdev_total [] h = absurd (omega arith)
some_stdev_total (x ∷ []) h = absurd (omega arith)
some_stdev_total (x ∷ y ∷ xs) h = (y, refl)

statistics-IsTotal : IsTotal statistics
statistics-IsTotal = record { mean = some_mean_total; stdev = some_stdev_total }

abbrev outs : List (Result Text)
outs = ok report ∷ raise timeout_expired ∷ ok report ∷ []

two_reps : run_ab_reps (map (run_ab is_digit to_float) outs) ≡ ok (figures_read ∷ figures_read ∷ [])
unfolding run_ab run_ab_reps collect find_figure is_space is_tolerated or_raise
two_reps = refl

summarize-run_ab_reps_example :
    (summary : List (Text × Stats Text)) × (summarize statistics (figures_read ∷ figures_read ∷ [])
      ≡ ok summary)
    × (keys summary ≡ keys ab_patterns)
summarize-run_ab_reps_example =
    summarize-run_ab_reps is_digit to_float statistics statistics-IsTotal outs
      (figures_read ∷ figures_read ∷ []) two_reps

-- Floats by their texts, where only the tests matter.
abbrev floats : Arithmetic Text
floats = record {
  times_100 = λ x. x;
  times_minus_100 = λ x. x;
  neg = λ x. x;
  sub = λ x y. x;
  div = λ x y. x;
  is_zero = λ x. text_eq x (codes "0.0");
  is_positive = λ x. not (text_eq x (codes "0.0"));
}

positive_not_zero : (b : Bool) → not b ≡ true → b ≡ false
positive_not_zero true h = cc h
positive_not_zero false h = refl

abbrev lib : Library Text
lib = record { is_digit = is_digit; to_float = to_float; statistics = statistics; floats = floats }

abbrev summary : List (Text × Stats Text)
summary = map (λ f. (f.0, record { mean = f.1; stddev = f.1 })) figures_read

two_summary : summarize statistics (figures_read ∷ figures_read ∷ []) ≡ ok summary
unfolding summarize
two_summary = refl

summary-Summarized : Summarized is_digit to_float statistics summary
summary-Summarized = record {
  outs = outs;
  reps = figures_read ∷ figures_read ∷ [];
  ran = two_reps;
  made = two_summary;
}

print_changes_iff_example :
    (mean : Text) × (requests_per_sec floats summary ≡ ok mean)
    × ((print_changes floats summary summary summary ≡ raise zero_division_error)
        ↔ (floats.is_zero mean ≡ true))
    × (shown : Option Text) × (throughput_change floats summary summary ≡ ok shown)
    × (is_some shown ≡ floats.is_positive mean)
print_changes_iff_example =
    print_changes_iff floats is_digit to_float statistics statistics-IsTotal summary summary summary
      summary-Summarized summary-Summarized summary-Summarized
      (λ x. positive_not_zero (text_eq x (codes "0.0")))

-- No instance runs, and none has a runtime directory; gdb does not exit when it is asked.
abbrev host : Host
host = record {
  here = codes "/vmi";
  dbg_kernel = codes "/k.dbg";
  runtime_root = codes "/run";
  os_environ = [];
  decode = λ s. s;
  listing = ok (codes "null");
  started = ok tt;
  full_listing = ok (codes "[]");
  can_bind = λ _. true;
  socket_at =
      λ _. record { there = false; accepts = false; is_open = false; incoming = []; sent = [] };
  gdb = record {
    spawned = ok tt;
    takes_source = true;
    takes_attach = true;
    has_exited = false;
    takes_detach = true;
    takes_quit = true;
    exits_on_quit = false;
    exits_on_terminate = true;
    captured = [];
  };
}

abbrev overhead : Overhead.World
overhead = record {
  host = host;
  warmup = ok report;
  baseline = outs;
  monitored = outs;
  written = ok tt;
}

none_running : (is_running (codes "vmibench") host).0 ≡ ok false
unfolding is_running instance_is_running loads_or_raise loads at_end read_value skip read_scalar
    starts_with instances any_named
none_running = refl

main-touches_example :
    keep touches (Overhead.main lib (codes "vmibench") overhead).1
    ≡ owned lib (codes "vmibench") overhead false
main-touches_example = main-touches lib (codes "vmibench") overhead false none_running

main-talks_example :
    keep talks (Overhead.main lib (codes "vmibench") overhead).1
    ≡ gdb_life lib (codes "vmibench") overhead (until_attached lib (codes "vmibench") overhead).0
main-talks_example = main-talks lib (codes "vmibench") overhead

abbrev condition : Inline.Condition
condition = record { started = ok tt; warmup = ok report; outs = outs }

-- The second condition fails.
abbrev inline : Inline.World
inline = record {
  host = host;
  qemu_is_file = true;
  addr = ok (pos 0x101000);
  baseline = condition;
  inline = record { started = ok tt; warmup = ok report; outs = [] };
  gdb_rsp = condition;
  written = ok tt;
}

main-lives_example : keep touches (Inline.main lib inline).1 ≡ lives lib inline (ok (pos 0x101000))
main-lives_example = main-lives lib inline

-- The third instance is never started.
two_lives :
    keep touches (Inline.main lib inline).1
    ≡ run_patched (codes "vmibench3base") []
      ∷ stop_instance (codes "vmibench3base")
      ∷ remove_instance (codes "vmibench3base")
      ∷ run_patched (codes "vmibench3inline") (
          (codes "VMI_MONITOR_LOG", codes "/vmi/logs/bench_inline_vmibench3inline.jsonl")
          ∷ (codes "VMI_MONITOR_ADDR", codes "0x101000")
          ∷ [])
      ∷ stop_instance (codes "vmibench3inline")
      ∷ remove_instance (codes "vmibench3inline")
      ∷ []
unfolding main stop_and_remove run_ab find_figure is_space run_ab_reps collect is_tolerated or_raise
    custom_environ summarize hex digits
two_lives = refl

zero_baseline :
    print_changes floats
      ((codes "requests_per_sec", record { mean = codes "0.0"; stddev = codes "0.0" }) ∷ [])
      summary
      summary
    ≡ raise zero_division_error
unfolding print_changes value_of
zero_baseline = refl

main-gdb_life_example :
    keep talks (Inline.main lib inline).1
    ≡ InlineGdb.gdb_life lib inline (InlineGdb.until_attached lib inline).0
main-gdb_life_example = InlineGdb.main-gdb_life lib inline
