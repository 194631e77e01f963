-- ===== src/Tests/Sessions.antt =====
-- The scripts at concrete command lines, processes and results.
use unikernel_syscall_monito.Base.{
  ℕ, arith, ◌≡◌, ◌≢◌, ◌↔◌, refl, true, false, none, some, List, [], ◌∷◌, ◌++◌, keep, All, any,
  length,
}
use unikernel_syscall_monito.Base.Int.{pos}
use unikernel_syscall_monito.Base.Result.{Result, ok, raise, runtime_error, os_error, ◌>>=◌}
use unikernel_syscall_monito.Base.Text.{Text, codes}
use unikernel_syscall_monito.Json.Loads.{
  loads, at_end, read_value, skip, read_scalar, first_field, read_key, read_string, read_colon,
  after_field,
}
use unikernel_syscall_monito.Inline.Format.{Os}
use unikernel_syscall_monito.Inline.View.{run_interactive, is_accept4}
use unikernel_syscall_monito.Inline.View.Events.{AreEvents, events, from_accept, opening}
use unikernel_syscall_monito.Inline.View.Laws.{format_all, run_interactive_lem}
use unikernel_syscall_monito.Bench.Reps.{run_ab_reps, successes, IsBearable, run_ab_reps_iff}
use unikernel_syscall_monito.Session.Environment.{environment, config_from}
use unikernel_syscall_monito.Session.Environment.Laws.{arguments, limit, config_from-environment}
use unikernel_syscall_monito.Monitor.Hook.{load_monitor}
use unikernel_syscall_monito.Session.Load.{Files, load}
use unikernel_syscall_monito.Py.Path.{dirname}
use unikernel_syscall_monito.Session.Load.Laws.{load-environment, load-Lacks}
use unikernel_syscall_monito.Session.Gdb.{Gdb}
use unikernel_syscall_monito.Session.Script.{touches}
use unikernel_syscall_monito.Session.Capture.{World, main}
use unikernel_syscall_monito.Session.Host.{Host, is_running}
use unikernel_syscall_monito.Session.Capture.Laws.{owned, main_lem}
use unikernel_syscall_monito.Gdbstub.Instance.{
  instance_is_running, loads_or_raise, instances, any_named,
}
use unikernel_syscall_monito.Py.Strip.{starts_with}

config_from-environment_example :
    config_from (
      environment
        (arguments (codes "vm") (codes "log") (pos 0 ∷ pos 1 ∷ []) [] (some (pos 0)))
        ((codes "HOME", codes "/root") ∷ []))
    ≡ ok (record {
      include = some (pos 0 ∷ pos 1 ∷ []);
      exclude = [];
      max_events = limit (some (pos 0));
    })
config_from-environment_example =
    config_from-environment (codes "vm") (codes "log") (pos 0 ∷ pos 1 ∷ []) [] (some (pos 0))
      ((codes "HOME", codes "/root") ∷ []) (refl, refl, refl)

-- A gdb that must be terminated.
abbrev stuck_gdb : Gdb
stuck_gdb = record {
  spawned = ok tt;
  takes_source = true;
  takes_attach = true;
  has_exited = false;
  takes_detach = true;
  takes_quit = true;
  exits_on_quit = false;
  exits_on_terminate = true;
  captured = codes "(gdb) " ∷ [];
}

-- No instance runs, and none has a runtime directory afterwards.
abbrev host : Host
host = record {
  here = codes "/vmi";
  dbg_kernel = codes "/k.dbg";
  runtime_root = codes "/run";
  os_environ = [];
  decode = λ s. s;
  listing = ok (codes "null");
  started = ok tt;
  full_listing = ok (codes "[]");
  can_bind = λ _. true;
  socket_at =
      λ _. record { there = false; accepts = false; is_open = false; incoming = []; sent = [] };
  gdb = stuck_gdb;
}

abbrev world : World
world = record { host = host; exits_in_time = false; log_lines = none }

not_yet_running : (is_running (codes "vm") host).0 ≡ ok false
unfolding is_running instance_is_running loads_or_raise loads at_end read_value skip read_scalar
    starts_with instances any_named
not_yet_running = refl

main_lem_example :
    keep touches (main (arguments (codes "vm") (codes "log") [] [] none) world).1
    ≡ owned (arguments (codes "vm") (codes "log") [] [] none) world false
main_lem_example =
    main_lem (arguments (codes "vm") (codes "log") [] [] none) world false not_yet_running

-- Two repetitions of three succeed.
abbrev reps : List (Result ℕ)
reps = ok 812 ∷ raise runtime_error ∷ ok 790 ∷ []

abbrev good_reps : List ℕ
good_reps = 812 ∷ 790 ∷ []

run_ab_reps_iff_example :
    (run_ab_reps reps ≡ ok good_reps)
    ↔ (All IsBearable reps × (good_reps ≡ successes reps) × (good_reps ≢ []))
run_ab_reps_iff_example = run_ab_reps_iff reps good_reps

abbrev pub os : Os
os = record {
  time_of_day = λ _. ok (codes "12:00:00");
  milliseconds = λ _. 7;
  strerror = λ _. codes "error";
  has_errno = λ _. true;
  show = λ _. [];
}

-- An event of the boot, a torn line, and the first connection.
abbrev lines : List Text
lines = codes "{\"syscall\": \"read\"}" ∷ codes "{\"sys" ∷ codes "{\"syscall\": \"accept4\"}" ∷ []

lines-AreEvents : AreEvents lines
unfolding loads at_end read_value skip first_field read_key read_string read_colon after_field
lines-AreEvents = (tt, (tt, (tt, tt)))

run_interactive_lem_example :
    (run_interactive os true lines ≡ (
      format_all os (from_accept (events lines)) >>= λ texts. ok (record {
        n_events = length (events lines);
        ready_seen = any is_accept4 (events lines);
        printed = opening (events lines) ++ texts;
      })))
    × (run_interactive os false lines ≡ (
        format_all os (events lines) >>= λ texts.
        ok (record { n_events = length (events lines); ready_seen = true; printed = texts })))
run_interactive_lem_example = run_interactive_lem os lines lines-AreEvents

-- A directory is made wherever it has a name.
abbrev named : Text → Result {0} Unit
named [] = raise os_error
named (c ∷ s) = ok tt

abbrev files : Files
files = record { makedirs = named; open_log = λ path. ok [] }

load-environment_example :
    load files (codes "/vmi") none (
      environment
        (arguments (codes "vm") (codes "/tmp/log") (pos 0 ∷ []) [] (some (pos 5)))
        ((codes "VMI_LOG_PATH", codes "/old") ∷ []))
    ≡ ok (
      record { include = some (pos 0 ∷ []); exclude = []; max_events = limit (some (pos 5)) },
      load_monitor none [] (codes "/tmp/log"),
    )
unfolding dirname
load-environment_example =
    load-environment files (codes "/vmi") none (codes "vm") (codes "/tmp/log") (pos 0 ∷ []) []
      (some (pos 5)) ((codes "VMI_LOG_PATH", codes "/old") ∷ []) [] (refl, refl, refl) refl refl

load-Lacks_example :
    load files
      (codes "/vmi")
      none
      (environment (arguments (codes "vm") (codes "a.log") [] [] none) [])
    ≡ raise os_error
load-Lacks_example =
    load-Lacks files (codes "/vmi") none (codes "vm") (codes "a.log") [] [] none []
      (refl, refl, refl) refl (omega arith)
