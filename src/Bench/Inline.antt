-- ===== src/Bench/Inline.antt =====
-- bench_overhead_inline.py: three conditions, each with an instance of its own.
pub mod Laws
pub mod Gdb
use unikernel_syscall_monito.Base.{
  ℕ, Bool, true, false, not, List, [], ◌∷◌, ◌++◌, map, if◌then◌else◌,
}
use unikernel_syscall_monito.Base.Int.{ℤ}
use unikernel_syscall_monito.Base.Result.{Result, ok}
use unikernel_syscall_monito.Base.Text.{Text, codes}
use unikernel_syscall_monito.Py.Number.{hex}
use unikernel_syscall_monito.Gdbstub.Port.{find_free_port}
use unikernel_syscall_monito.Session.Environment.{Environ}
use unikernel_syscall_monito.Session.Gdb.{launch_gdb_capture, stop_gdb_capture}
use unikernel_syscall_monito.Session.Host.{Host, find_dir, attach, stop_and_remove}
use unikernel_syscall_monito.Session.Script.{
  Script, Effect, act, give, try_finally, ◌>>=◌, ◌>>◌, run_instance, run_patched,
}
use unikernel_syscall_monito.Bench.Compare.{print_changes}
use unikernel_syscall_monito.Bench.Overhead.{Library, Reps, Summary, figures, repeated, summary_of}

-- The result of `kraft run`, and what `ab` prints in the warm-up and in the repetitions.
pub record Condition : Type 0 where
  pub started : Result {0} Unit
  pub warmup : Result Text
  pub outs : List (Result Text)

-- What the script finds: the host, on which gdb runs in the last condition, whether QEMU's path is
-- a file, the address of the hook as it is resolved, and whether the result can be written.
pub record World : Type 0 where
  pub host : Host
  pub qemu_is_file : Bool
  pub addr : Result ℤ
  pub baseline : Condition
  pub inline : Condition
  pub gdb_rsp : Condition
  pub written : Result {0} Unit

abbrev pub run_effect : Text → Bool → Environ → Effect
run_effect name true env = run_patched name env
run_effect name false env = run_instance name

-- With `--qemu` if a path is given.
unfoldable pub kraft_run : Text → Bool → Environ → Result {0} Unit → Script Unit
kraft_run name patched env started = do act (run_effect name patched env); give started

-- The environment of QEMU: the variables are added to those that were inherited.
unfoldable pub custom_environ : Text → Text → ℤ → Bool → Environ → Environ
custom_environ here name addr monitor_enabled os_environ =
    if monitor_enabled
    then (codes "VMI_MONITOR_LOG", here ++ codes "/logs/bench_inline_" ++ name ++ codes ".jsonl")
      ∷ (codes "VMI_MONITOR_ADDR", hex addr)
      ∷ os_environ
    else os_environ

abbrev pub gdb_name : Text
gdb_name = codes "vmibench3gdb"

module _ {Float : Type 0} (lib : Library Float) where
  -- The summaries of the three conditions, with which the changes are shown.
  pub record Summaries : Type 0 where
    pub baseline_custom : Summary lib
    pub inline : Summary lib
    pub gdb_rsp : Summary lib

  pub data Exit : Type 0 where
    failure : Exit
    compared : Summaries → Float × Float → Exit

module _ {Float : Type 0} (lib : Library Float) (w : World) where
  -- The warm-up, whose result is discarded, and the repetitions.
  unfoldable pub benchmark : Condition → Script (Reps lib)
  benchmark c = do give (figures lib c.warmup); repeated lib c.outs

  unfoldable pub run_condition_custom_qemu : Text → ℤ → Bool → Condition → Script (Reps lib)
  unfolding kraft_run benchmark
  run_condition_custom_qemu name addr monitor_enabled c = do
    kraft_run name true (custom_environ w.host.here name addr monitor_enabled w.host.os_environ)
        c.started
    try_finally (benchmark c) (stop_and_remove name)

  abbrev pub gdb_environ : Environ
  gdb_environ =
      (codes "VMI_LOG_PATH", w.host.here ++ codes "/logs/bench_inline_gdb.jsonl")
      ∷ w.host.os_environ

  unfoldable pub gdb_at : Condition → Text → ℕ → Script (Reps lib)
  unfolding benchmark
  gdb_at c dir port = do
    attach gdb_name w.host dir port
    launch_gdb_capture w.host.here w.host.dbg_kernel w.host.gdb port gdb_environ
    try_finally (benchmark c) (stop_gdb_capture w.host.gdb)

  unfoldable pub gdb_in : Condition → Text → Script (Reps lib)
  unfolding gdb_at
  gdb_in c dir = do port ← give (find_free_port w.host.can_bind 1234); gdb_at c dir port

  unfoldable pub with_gdb : Condition → Script (Reps lib)
  unfolding gdb_in
  with_gdb c = do dir ← find_dir gdb_name w.host; gdb_in c dir

  unfoldable pub run_condition_gdb : Condition → Script (Reps lib)
  unfolding with_gdb kraft_run
  run_condition_gdb c = do
    kraft_run gdb_name false w.host.os_environ c.started
    try_finally (with_gdb c) (stop_and_remove gdb_name)

  unfoldable pub third : Summary lib → Summary lib → Script (Exit lib)
  unfolding run_condition_gdb
  third a b = do
    reps ← run_condition_gdb w.gdb_rsp
    c ← summary_of lib reps
    give w.written
    shown ← give (print_changes lib.floats a b c)
    give (ok (compared (record { baseline_custom = a; inline = b; gdb_rsp = c }) shown))

  unfoldable pub second : ℤ → Summary lib → Script (Exit lib)
  unfolding run_condition_custom_qemu third
  second addr a = do
    reps ← run_condition_custom_qemu (codes "vmibench3inline") addr true w.inline
    b ← summary_of lib reps
    third a b

  unfoldable pub first : ℤ → Script (Exit lib)
  unfolding run_condition_custom_qemu second
  first addr = do
    reps ← run_condition_custom_qemu (codes "vmibench3base") addr false w.baseline
    a ← summary_of lib reps
    second addr a

  unfoldable pub main : Script (Exit lib)
  unfolding first
  main = if w.qemu_is_file then (do addr ← give w.addr; first addr) else give (ok failure)
