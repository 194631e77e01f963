-- ===== src/Session/Environment.antt =====
-- The environment that `main` of run_capture.py and run_capture_from_boot.py build for gdb, and what
-- monitor.py reads back from it.
pub mod Laws
use unikernel_syscall_monito.Base.{
  ◌≡◌, ◌≢◌, refl, true, false, Option, none, some, List, [], ◌∷◌, map, if◌then◌else◌, inl, inr,
  Bool-cases, ◌∙◌, ap,
}
use unikernel_syscall_monito.Base.Int.{ℤ, pos, int_eq}
use unikernel_syscall_monito.Base.Result.{Result, ok}
use unikernel_syscall_monito.Base.Text.{Text, codes, text_eq}
use unikernel_syscall_monito.Py.Number.{str}
use unikernel_syscall_monito.Py.Split.{join}
use unikernel_syscall_monito.Monitor.NrSet.{
  Config, read_config, or_no_numbers, parse_nr_set, parse_max_events, to_int,
}
use unikernel_syscall_monito.Monitor.NrSet.Laws.{parse_nr_set-join, to_int-str, str-ne-nil}

-- The latest assignment comes first.
abbrev pub Environ : Type 0
Environ = List (Text × Text)

abbrev pub get : Text → Environ → Option Text
get name [] = none
get name ((key, value) ∷ env) = if text_eq name key then some value else get name env

-- The arguments that matter after the parsing of the command line.
pub record Args : Type 0 where
  pub name : Text
  pub log : Text
  pub include : Text
  pub exclude : Text
  pub max_events : Option ℤ

-- `if text: env[key] = text`
unfoldable pub set_text : Text → Text → Environ → Environ
set_text key [] env = env
set_text key (c ∷ s) env = (key, c ∷ s) ∷ env

-- `if n: env[key] = str(n)`
unfoldable pub set_count : Text → Option ℤ → Environ → Environ
set_count key none env = env
set_count key (some n) env = if int_eq n (pos 0) then env else (key, str n) ∷ env

unfoldable pub environment : Args → Environ → Environ
unfolding set_text set_count
environment args os_environ = set_count (codes "VMI_MAX_EVENTS") args.max_events (
    set_text (codes "VMI_EXCLUDE_NRS") args.exclude (
      set_text (codes "VMI_INCLUDE_NRS") args.include
        ((codes "VMI_LOG_PATH", args.log) ∷ os_environ)))

-- The settings of a monitor.py that starts in an environment.
unfoldable pub config_from : Environ → Result Config
config_from env =
    read_config (get (codes "VMI_INCLUDE_NRS") env) (get (codes "VMI_EXCLUDE_NRS") env)
      (get (codes "VMI_MAX_EVENTS") env)
