-- ===== src/Session/Capture.antt =====
-- run_capture.py: `start_instance`, `stop_and_remove` and `main`, from the parsed command line on.
pub mod Laws
use unikernel_syscall_monito.Base.{
  ℕ, Bool, true, false, Option, none, some, List, [], ◌∷◌, ◌++◌, not, if◌then◌else◌,
}
use unikernel_syscall_monito.Base.Result.{Result, ok, raise}
use unikernel_syscall_monito.Base.Text.{Text, codes}
use unikernel_syscall_monito.Gdbstub.Attach.{Socket, attach_gdbserver}
use unikernel_syscall_monito.Gdbstub.Instance.{find_instance_runtime_dir, instance_is_running}
use unikernel_syscall_monito.Gdbstub.Port.{find_free_port}
use unikernel_syscall_monito.Session.Environment.{Args, Environ, environment}
use unikernel_syscall_monito.Session.Gdb.{
  Gdb, launch_gdb_capture, stop_gdb_capture, drain_gdb_output,
}
use unikernel_syscall_monito.Session.Host.{
  Host, is_running, find_dir, attach, start_instance, stop_and_remove,
}
use unikernel_syscall_monito.Session.Script.{
  Script, act, pass, give, ◌>>=◌, ◌>>◌, run_instance, stop_instance, remove_instance, open_stub,
}

-- What the script finds, whether gdb exits within the duration, and the lines of the log file, if
-- there is one.
pub record World : Type 0 where
  pub host : Host
  pub exits_in_time : Bool
  pub log_lines : Option ℕ

abbrev pub or_zero : Option ℕ → ℕ
or_zero none = 0
or_zero (some n) = n

module _ (args : Args) (w : World) where
  unfoldable pub wait_for_gdb : Script Text
  wait_for_gdb =
      if w.exits_in_time then drain_gdb_output w.host.gdb else stop_gdb_capture w.host.gdb

  unfoldable pub capture_at : Text → ℕ → Script Text
  unfolding wait_for_gdb
  capture_at dir port = do
    attach args.name w.host dir port
    launch_gdb_capture w.host.here w.host.dbg_kernel w.host.gdb port
        (environment args w.host.os_environ)
    wait_for_gdb

  unfoldable pub capture_in : Text → Script Text
  capture_in dir = do port ← give (find_free_port w.host.can_bind 1234); capture_at dir port

  -- Until gdb is gone.
  unfoldable pub capture : Script Text
  capture = do dir ← find_dir args.name w.host; capture_in dir

  unfoldable pub start_if : Bool → Script Unit
  unfolding start_instance
  start_if we_started_it = if we_started_it then start_instance args.name w.host.started else pass

  unfoldable pub stop_if : Bool → Script Unit
  unfolding stop_and_remove
  stop_if we_started_it = if we_started_it then stop_and_remove args.name else pass

  -- What is reported in the end is the number of events in the log.
  unfoldable pub finish : Bool → Script ℕ
  unfolding stop_if
  finish running = do stop_if (not running); give (ok (or_zero w.log_lines))

  unfoldable pub capture_and_finish : Bool → Script ℕ
  capture_and_finish running = do _ ← capture; finish running

  -- Once it is known whether the instance runs.
  unfoldable pub session : Bool → Script ℕ
  unfolding start_if
  session running = do start_if (not running); capture_and_finish running

  unfoldable pub main : Script ℕ
  main = do running ← is_running args.name w.host; session running
