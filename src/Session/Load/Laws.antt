-- ===== src/Session/Load/Laws.antt =====
-- What monitor.py starts with under the scripts that capture with gdb.
use unikernel_syscall_monito.Base.{◌≡◌, refl, Option, List, []}
use unikernel_syscall_monito.Base.Int.{ℤ}
use unikernel_syscall_monito.Base.Result.{ok, raise, os_error}
use unikernel_syscall_monito.Base.Text.{Text}
use unikernel_syscall_monito.Monitor.Hook.{load_monitor}
use unikernel_syscall_monito.Py.Split.{Lacks}
use unikernel_syscall_monito.Py.Path.{dirname, dirname-Lacks}
use unikernel_syscall_monito.Session.Environment.{Environ, environment}
use unikernel_syscall_monito.Session.Environment.Laws.{
  IsUnset, arguments, requested, limit, environment-log, config_from-environment,
}
use unikernel_syscall_monito.Session.Load.{Files, log_path_from, load}

-- monitor.py as gdb reads it under a script whose command line lists these numbers: it has the
-- settings that the command line asks for, and appends to the log file that it names, whatever was
-- inherited for it, if its directory can be made and the file opened; the three other variables
-- were not set before.
pub load-environment :
    (files : Files) (here : Text) (error : Option Text) (name log : Text) (include exclude : List ℤ)
    (max_events : Option ℤ) (env : Environ) (old_log : List Text)
    → IsUnset env
    → files.makedirs (dirname log) ≡ ok tt
    → files.open_log log ≡ ok old_log
    → load files here error (environment (arguments name log include exclude max_events) env)
      ≡ ok (
        record { include = requested include; exclude = exclude; max_events = limit max_events },
        load_monitor error old_log log,
      )
unfolding load log_path_from
load-environment files here error name log include exclude max_events env old_log unset made
      opened =
    rw
      (
        config_from-environment name log include exclude max_events env unset,
        environment-log (arguments name log include exclude max_events) env,
        made,
        opened,
      )
      refl

-- With a log file that is named without a directory monitor.py raises instead, before it opens the
-- file: os.makedirs makes no directory without a name.
pub load-Lacks :
    (files : Files) (here : Text) (error : Option Text) (name log : Text) (include exclude : List ℤ)
    (max_events : Option ℤ) (env : Environ)
    → IsUnset env
    → files.makedirs [] ≡ raise os_error
    → Lacks b'/' log
    → load files here error (environment (arguments name log include exclude max_events) env)
      ≡ raise os_error
unfolding load log_path_from
load-Lacks files here error name log include exclude max_events env unset nameless lacks =
    rw
      (
        config_from-environment name log include exclude max_events env unset,
        environment-log (arguments name log include exclude max_events) env,
        dirname-Lacks log lacks,
        nameless,
      )
      refl
