-- ===== src/Session/Boot.antt =====
-- run_capture_from_boot.py: `connect_hmp`, and `main` from the parsed command line on.
pub mod Laws
pub mod Talks
use unikernel_syscall_monito.Base.{
  ℕ, Bool, true, false, Option, none, some, List, [], ◌∷◌, ◌++◌, map, if◌then◌else◌,
}
use unikernel_syscall_monito.Base.Result.{Result, Exception, ok, raise}
use unikernel_syscall_monito.Base.Text.{Text, codes}
use unikernel_syscall_monito.Gdbstub.Attach.{Socket, hmp_command, command}
use unikernel_syscall_monito.Gdbstub.Hmp.{recv_until_prompt}
use unikernel_syscall_monito.Gdbstub.Port.{find_free_port}
use unikernel_syscall_monito.Session.Capture.{or_zero}
use unikernel_syscall_monito.Session.Environment.{Args, Environ, environment}
use unikernel_syscall_monito.Session.Gdb.{
  Gdb, launch_gdb_preloaded, attach_preloaded_gdb, stop_gdb_capture, drain_gdb_output,
}
use unikernel_syscall_monito.Session.Host.{stop_and_remove}
use unikernel_syscall_monito.Session.Script.{
  Script, act, give, ◌>>=◌, ◌>>◌, run_instance, open_stub,
}
use unikernel_syscall_monito.Session.Waits.{Round, Waiting, running, ended, wait_until}

-- What `sock.connect` does: a missing file or a refused connection is tried again.
pub data Attempt : Type 0 where
  accepted : Attempt
  refused : Attempt
  failed : Exception → Attempt

abbrev pub settled : Attempt → Option (Result {0} Unit)
settled accepted = some (ok tt)
settled refused = none
settled (failed e) = some (raise e)

abbrev pub joined : Waiting (Result {0} Unit) → Waiting Unit
joined running = running
joined (ended (ok r)) = ended r
joined (ended (raise e)) = ended (raise e)

-- The attempts, round by round.
unfoldable pub connect_hmp : ℕ → List (ℕ × Attempt) → Waiting Unit
connect_hmp deadline attempts =
    joined (wait_until deadline (map (λ a. record { now = a.0; found = settled a.1 }) attempts))

-- What the script finds: the runtime directory before the start, whether kraft can be run, how the
-- three waits end, QEMU's monitor, the ports that can be bound, whether `kraft run` ends in a minute,
-- the gdb process and
-- whether it exits within the duration, and the lines of the log file, if there is one.
pub record World : Type 0 where
  pub here : Text
  pub dbg_kernel : Text
  pub os_environ : Environ
  pub decode : Text → Text
  pub before : Result (List Text)
  pub kraft_spawned : Result {0} Unit
  pub new_dir : List Text → Result Text
  pub path_appears : Text → Result {0} Unit
  pub connects : Text → Result {0} Unit
  pub monitor : Socket
  pub can_bind : ℕ → Bool
  pub kraft_ends : Result {0} Unit
  pub gdb : Gdb
  pub exits_in_time : Bool
  pub log_lines : Option ℕ

module _ (args : Args) (w : World) where
  -- The command for the stub, over the connection whose banner has been read.
  unfoldable pub arm : Text → ℕ → List Text → Script Text
  arm dir port left = do
    act (open_stub dir port)
    give (hmp_command w.decode (command w.decode port) (record w.monitor { incoming = left })).0

  unfoldable pub wait_for_gdb : Script Text
  wait_for_gdb = if w.exits_in_time then drain_gdb_output w.gdb else stop_gdb_capture w.gdb

  -- The attached gdb, until it is gone.
  unfoldable pub capture_at : Text → ℕ → List Text → Script Text
  unfolding arm wait_for_gdb
  capture_at dir port left = do
    arm dir port left
    attach_preloaded_gdb w.gdb port
    give w.kraft_ends
    wait_for_gdb

  -- Over the connection to the monitor in the directory of the new instance.
  unfoldable pub capture_in : Text → Script Text
  unfolding capture_at
  capture_in dir = do
    give (w.path_appears (dir ++ codes "/mon.sock"))
    give (w.connects (dir ++ codes "/mon.sock"))
    give (recv_until_prompt [] w.monitor.incoming).0
    port ← give (find_free_port w.can_bind 1234)
    capture_at dir port (recv_until_prompt [] w.monitor.incoming).1

  unfoldable pub capture : List Text → Script Text
  unfolding capture_in
  capture before = do dir ← give (w.new_dir before); capture_in dir

  unfoldable pub finish : Script ℕ
  finish = do stop_and_remove args.name; give (ok (or_zero w.log_lines))

  -- From the start of the instance, which is not waited for.
  unfoldable pub boot : List Text → Script ℕ
  unfolding capture finish
  boot before = do give w.kraft_spawned; act (run_instance args.name); capture before; finish

  unfoldable pub main : Script ℕ
  unfolding boot
  main = do
    launch_gdb_preloaded w.here w.dbg_kernel w.gdb (environment args w.os_environ)
    before ← give w.before
    boot before
