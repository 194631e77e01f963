-- ===== src/Bench/Overhead.antt =====
-- `main` of bench_overhead.py, from the parsed command line on.
pub mod Laws
pub mod Gdb
use unikernel_syscall_monito.Base.{ℕ, Bool, not, Option, List, [], ◌∷◌, ◌++◌, map, if◌then◌else◌}
use unikernel_syscall_monito.Base.Result.{Result, ok}
use unikernel_syscall_monito.Base.Text.{Text, codes}
use unikernel_syscall_monito.Bench.Ab.{run_ab}
use unikernel_syscall_monito.Bench.Reps.{run_ab_reps}
use unikernel_syscall_monito.Bench.Summary.{Stats, Statistics, summarize}
use unikernel_syscall_monito.Bench.Compare.{Arithmetic, throughput_change}
use unikernel_syscall_monito.Gdbstub.Port.{find_free_port}
use unikernel_syscall_monito.Session.Environment.{Environ}
use unikernel_syscall_monito.Session.Gdb.{launch_gdb_capture, stop_gdb_capture}
use unikernel_syscall_monito.Session.Host.{
  Host, is_running, find_dir, attach, start_instance, stop_and_remove,
}
use unikernel_syscall_monito.Session.Script.{Script, give, pass, try_finally, ◌>>=◌, ◌>>◌}

-- The class `\d`, `float`, `statistics` and the operations on floats.
pub record Library (Float : Type 0) : Type 0 where
  pub is_digit : ℕ → Bool
  pub to_float : Text → Result Float
  pub statistics : Statistics Float
  pub floats : Arithmetic Float

-- What the script finds: what `ab` prints in the warm-up and in the repetitions of both conditions,
-- or its exceptions, and whether the result can be written.
pub record World : Type 0 where
  pub host : Host
  pub warmup : Result Text
  pub baseline : List (Result Text)
  pub monitored : List (Result Text)
  pub written : Result {0} Unit

module _ {Float : Type 0} (lib : Library Float) where
  abbrev pub Reps : Type 0
  Reps = List (List (Text × Float))

  abbrev pub Summary : Type 0
  Summary = List (Text × Stats Float)

  -- The summaries, and the change that is shown, if any.
  abbrev pub Outcome : Type 0
  Outcome = (Summary × Summary) × Option Float

  -- The figures of one run of `ab`.
  abbrev pub figures : Result Text → Result (List (Text × Float))
  figures out = run_ab lib.is_digit lib.to_float out

  abbrev pub repeated : List (Result Text) → Script Reps
  repeated outs = give (run_ab_reps (map figures outs))

  abbrev pub summary_of : Reps → Script Summary
  summary_of reps = give (summarize lib.statistics reps)

  unfoldable pub show_change : Summary × Summary → Script Outcome
  show_change summaries = do
    shown ← give (throughput_change lib.floats summaries.0 summaries.1)
    give (ok (summaries, shown))

  module _ (name : Text) (w : World) where
    -- The repetitions while gdb is attached, which is ended after them.
    unfoldable pub monitored_reps : Script Reps
    monitored_reps = try_finally (repeated w.monitored) (stop_gdb_capture w.host.gdb)

    abbrev pub gdb_environ : Environ
    gdb_environ =
        (codes "VMI_LOG_PATH", w.host.here ++ codes "/logs/bench_monitor_capture.jsonl")
        ∷ w.host.os_environ

    unfoldable pub monitor_at : Text → ℕ → Script Reps
    unfolding monitored_reps
    monitor_at dir port = do
      attach name w.host dir port
      launch_gdb_capture w.host.here w.host.dbg_kernel w.host.gdb port gdb_environ
      monitored_reps

    unfoldable pub monitor_in : Text → Script Reps
    unfolding monitor_at
    monitor_in dir = do port ← give (find_free_port w.host.can_bind 1234); monitor_at dir port

    unfoldable pub monitor : Script Reps
    unfolding monitor_in
    monitor = do dir ← find_dir name w.host; monitor_in dir

    unfoldable pub run_baseline : Script Summary
    run_baseline = do give (figures w.warmup); reps ← repeated w.baseline; summary_of reps

    unfoldable pub run_monitored : Script Summary
    unfolding monitor
    run_monitored = do reps ← monitor; summary_of reps

    -- Both conditions.
    unfoldable pub measure : Script (Summary × Summary)
    unfolding run_baseline run_monitored
    measure = do baseline ← run_baseline; monitored ← run_monitored; give (ok (baseline, monitored))

    unfoldable pub start_if : Bool → Script Unit
    start_if we_started_it = if we_started_it then start_instance name w.host.started else pass

    unfoldable pub stop_if : Bool → Script Unit
    stop_if we_started_it = if we_started_it then stop_and_remove name else pass

    -- The result is written, and the comparison is shown.
    unfoldable pub finish : Bool → Summary × Summary → Script Outcome
    unfolding stop_if show_change
    finish running summaries = do stop_if (not running); give w.written; show_change summaries

    unfoldable pub measure_and_finish : Bool → Script Outcome
    measure_and_finish running = do summaries ← measure; finish running summaries

    unfoldable pub session : Bool → Script Outcome
    unfolding start_if
    session running = do start_if (not running); measure_and_finish running

    unfoldable pub main : Script Outcome
    main = do running ← is_running name w.host; session running
