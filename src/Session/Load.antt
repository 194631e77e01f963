-- ===== src/Session/Load.antt =====
-- What gdb does when it reads monitor.py in an environment: the settings and the log file.
pub mod Laws
use unikernel_syscall_monito.Base.{
  ℕ, Bool, true, false, not, Option, none, some, List, [], ◌∷◌, ◌++◌, ◌==◌, any, if◌then◌else◌,
}
use unikernel_syscall_monito.Base.Result.{Result, ok, raise, ◌>>=◌}
use unikernel_syscall_monito.Base.Text.{Text, codes}
use unikernel_syscall_monito.Monitor.Handler.{Breakpoint}
use unikernel_syscall_monito.Monitor.Hook.{load_monitor}
use unikernel_syscall_monito.Monitor.NrSet.{Config}
use unikernel_syscall_monito.Py.Path.{dirname}
use unikernel_syscall_monito.Session.Environment.{Environ, get, config_from}

abbrev or_default : Text → Option Text → Text
or_default default none = default
or_default default (some s) = s

-- LOG_PATH, from the directory of monitor.py.
unfoldable pub log_path_from : Text → Environ → Text
log_path_from here env =
    or_default (here ++ codes "/logs/capture.jsonl") (get (codes "VMI_LOG_PATH") env)

-- `os.makedirs(..., exist_ok=True)`, and `open(..., "a")`, with the lines that the file holds.
pub record Files : Type 0 where
  pub makedirs : Text → Result {0} Unit
  pub open_log : Text → Result (List Text)

unfoldable pub load : Files → Text → Option Text → Environ → Result (Config × (Text × Breakpoint))
unfolding log_path_from
load files here error env = do
  config ← config_from env
  u ← files.makedirs (dirname (log_path_from here env))
  old ← files.open_log (log_path_from here env)
  ok (config, load_monitor error old (log_path_from here env))
