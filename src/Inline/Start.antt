-- ===== src/Inline/Start.antt =====
-- `start_instance` and `main` of run_capture_inline.py, from the parsed command line on.
pub mod Laws
pub mod Captured
use unikernel_syscall_monito.Base.{
  ℕ, ◌≡◌, refl, Bool, true, false, Option, none, some, List, [], ◌∷◌, ◌++◌, map, keep, ◌⊎◌,
  if◌then◌else◌, Bool-cases, inl, inr,
}
use unikernel_syscall_monito.Base.Int.{ℤ}
use unikernel_syscall_monito.Base.Result.{Result, ok, raise, Result-cases}
use unikernel_syscall_monito.Base.Text.{Text, codes, text_eq}
use unikernel_syscall_monito.Gdbstub.Instance.{instance_is_running}
use unikernel_syscall_monito.Py.Number.{hex}
use unikernel_syscall_monito.Inline.Resolve.{find_addr, find_ret_addr}
use unikernel_syscall_monito.Inline.Live.{Watch, lines_or, count_events}
use unikernel_syscall_monito.Inline.Tail.{write, start, run}
use unikernel_syscall_monito.Session.Host.{stop_and_remove}
use unikernel_syscall_monito.Session.Environment.{Environ, get}
use unikernel_syscall_monito.Session.Host.Laws.{returns}
use unikernel_syscall_monito.Session.Script.{
  Effect, Script, act, give, ◌>>=◌, ◌>>◌, run_patched, stop_instance, remove_instance, touches,
  and_then,
}

-- `env.pop(key, None)`
unfoldable pub pop : Text → Environ → Environ
pop key [] = []
pop key ((k, v) ∷ env) = let rest = pop key env in if text_eq key k then rest else (k, v) ∷ rest

unfoldable pub monitor_environ : ℤ → Option ℤ → Text → Environ → Environ
monitor_environ addr none log os_environ =
    pop (codes "VMI_MONITOR_RET_ADDR")
      ((codes "VMI_MONITOR_LOG", log) ∷ (codes "VMI_MONITOR_ADDR", hex addr) ∷ os_environ)
monitor_environ addr (some ret_addr) log os_environ =
    (codes "VMI_MONITOR_RET_ADDR", hex ret_addr)
    ∷ pop (codes "VMI_MONITOR_RET_ADDR")
        ((codes "VMI_MONITOR_LOG", log) ∷ (codes "VMI_MONITOR_ADDR", hex addr) ∷ os_environ)

abbrev pub map_hex : Option ℤ → Option Text
map_hex none = none
map_hex (some n) = some (hex n)

-- What the script finds: whether QEMU's path is a file, the addresses on the command line, if they
-- are given and not empty, as `int(_, 0)` reads them, the lines of nm, and of objdump from an
-- address on, whether the old log files could be removed, the output of `kraft ps`, the result of
-- `kraft run`, and whether the breakpoint is seen to be armed; the absolute path that
-- `Path.resolve` makes of the log's; how the log is watched, and what QEMU writes to it after that,
-- until it is stopped. Each step may raise, also by Ctrl-C.
pub record World : Type 0 where
  pub qemu_is_file : Bool
  pub given_addr : Option (Result ℤ)
  pub nm : Result (List Text)
  pub no_ret : Bool
  pub given_ret_addr : Option (Result ℤ)
  pub objdump : ℤ → Result (List Text)
  pub logs_removed : Result {0} Unit
  pub os_environ : Environ
  pub listing : Result Text
  pub started : Result {0} Unit
  pub armed : Result Bool
  pub resolve : Text → Result Text
  pub watch : Watch
  pub written_later : List Text

-- The exit status of the script, with the number of events that it reports.
pub data Exit : Type 0 where
  failure : Exit
  captured : ℕ → Exit

-- `try: body finally: last`, where the last part does not raise.
abbrev pub finally : {A : Type 0} → Script A → Script Unit → Script A
finally (r, es) last = (r, es ++ last.1)

module _ (name log : Text) (w : World) where
  unfoldable pub start_instance : ℤ → Option ℤ → Script Unit
  start_instance addr ret_addr = do
    path ← give (w.resolve log)
    act (run_patched name (monitor_environ addr ret_addr path w.os_environ))
    give w.started

  -- The log when QEMU has been stopped.
  unfoldable pub final_log : Option Text
  final_log =
      (run (map (λ s. write s) w.written_later) (run w.watch.ticks (start w.watch.log_file))).file

  unfoldable pub view : Script ℕ
  unfolding stop_and_remove
  view = finally (give (count_events w.watch)) (stop_and_remove name)

  -- The part that has an instance of its own.
  unfoldable pub monitored : ℤ → Option ℤ → Script Exit
  unfolding start_instance view
  monitored addr ret_addr = do
    start_instance addr ret_addr
    give w.armed
    n ← view
    give (ok (captured (lines_or n final_log)))

  unfoldable pub start_if_free : ℤ → Option ℤ → Bool → Script Exit
  start_if_free addr ret_addr running =
      if running then give (ok failure) else monitored addr ret_addr

  unfoldable pub resolved : Script Exit
  resolved = do
    addr ← give (find_addr w.given_addr w.nm)
    ret_addr ← give (find_ret_addr w.no_ret w.given_ret_addr (w.objdump addr))
    give w.logs_removed
    out ← give w.listing
    running ← give (instance_is_running name out)
    start_if_free addr ret_addr running

  unfoldable pub main : Script Exit
  main = if w.qemu_is_file then resolved else give (ok failure)
