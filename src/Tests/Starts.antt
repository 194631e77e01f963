-- ===== src/Tests/Starts.antt =====
-- The start of the patched QEMU at a concrete world.
use unikernel_syscall_monito.Base.{refl, ◌≡◌, ◌⊎◌, true, false, some, none, [], ◌∷◌, ◌++◌, keep}
use unikernel_syscall_monito.Base.Int.{pos}
use unikernel_syscall_monito.Base.Result.{ok, raise, os_error}
use unikernel_syscall_monito.Base.Text.{codes, Text}
use unikernel_syscall_monito.Py.Number.{digit_char, digit_value, hex, digits}
use unikernel_syscall_monito.Session.Environment.{Environ, get}
use unikernel_syscall_monito.Session.Script.{touches, run_patched, stop_instance, remove_instance}
use unikernel_syscall_monito.Inline.Start.{
  resolved, start_if_free, monitored, start_instance, view, World, main, monitor_environ,
}
use unikernel_syscall_monito.Inline.Start.Laws.{
  Startable, Launched, main-Launched, start_instance-environ,
}
use unikernel_syscall_monito.Inline.Live.{Watch, count_events}
use unikernel_syscall_monito.Tests.Sessions.{os}
use unikernel_syscall_monito.Inline.Resolve.{
  find_addr, find_ret_addr, first_word, word, before_colon, resolve_syscall_addr,
  resolve_syscall_ret_addr, is_hook_line, is_return_line,
}
use unikernel_syscall_monito.Inline.Resolve.Laws.{resolve_lem, hook_line, instruction}
use unikernel_syscall_monito.Session.Host.{stop_and_remove}
use unikernel_syscall_monito.Gdbstub.Instance.{
  instance_is_running, loads_or_raise, instances, any_named,
}
use unikernel_syscall_monito.Json.Loads.{loads, at_end, read_value, skip, read_scalar}
use unikernel_syscall_monito.Py.Strip.{
  left_strip, right_strip, strip, starts_with, ends_with, contains, is_space,
}
use unikernel_syscall_monito.Py.Hex.{
  int16, is_hex_digit, magnitude, prefixed, scan_hex, signed_hex, padded, zeros,
}

abbrev inherited : Environ
inherited = (codes "VMI_MONITOR_RET_ADDR", codes "0x7") ∷ []

abbrev other_symbol : Text
other_symbol = codes "0000000000100000 T _libkvmplat_entry"

abbrev push : Text
push = codes "  101000:\t50                   \tpush   %rax"

abbrev jump : Text
jump = codes "\tff e1                \tjmp    *%rcx"

-- The log is not followed, and the sleep ends by an exception.
abbrev pub watch : Watch
watch = record {
  quiet = true;
  slept = raise os_error;
  os = os;
  show_after_ready = false;
  log_file = none;
  ticks = [];
}

-- Nothing runs, and the addresses are searched.
abbrev pub world : World
world = record {
  qemu_is_file = true;
  given_addr = none;
  nm = ok (other_symbol ∷ hook_line 10 0x101000 ∷ []);
  no_ret = false;
  given_ret_addr = none;
  objdump = λ addr. ok (push ∷ instruction (codes "  ") 0 0x101050 jump ∷ []);
  logs_removed = ok tt;
  os_environ = inherited;
  listing = ok (codes "null");
  started = ok tt;
  armed = ok true;
  resolve = λ p. ok (codes "/vmi/" ++ p);
  watch = watch;
  written_later = [];
}

main-Launched_example :
    ((¬ Startable (codes "vm") (codes "log") world)
      × (keep touches (main (codes "vm") (codes "log") world).1 ≡ []))
    ⊎ Launched
        (codes "vm")
        (codes "log")
        world
        (keep touches (main (codes "vm") (codes "log") world).1)
main-Launched_example = main-Launched (codes "vm") (codes "log") world

-- An instance is started there, with both addresses, and it is removed after the exception.
main_launches :
    keep touches (main (codes "vm") (codes "log") world).1
    ≡ run_patched
        (codes "vm")
        (monitor_environ (pos 0x101000) (some (pos 0x101050)) (codes "/vmi/log") inherited)
      ∷ stop_instance (codes "vm")
      ∷ remove_instance (codes "vm")
      ∷ []
unfolding main resolved find_addr find_ret_addr resolve_syscall_addr resolve_syscall_ret_addr
    first_word word left_strip right_strip strip is_space ends_with starts_with contains
    is_hook_line is_return_line before_colon int16 is_hex_digit magnitude prefixed scan_hex
    signed_hex digit_char hook_line padded zeros digits instruction instance_is_running
    loads_or_raise instances any_named loads at_end read_value skip read_scalar start_if_free
    monitored start_instance view stop_and_remove monitor_environ digit_value count_events
main_launches = refl

start_instance-environ_example :
    (env : Environ) × ((start_instance (codes "vm") (codes "log") world (pos 0x101000) none).1
      ≡ run_patched (codes "vm") env ∷ [])
    × (get (codes "VMI_MONITOR_ADDR") env ≡ some (hex (pos 0x101000)))
    × (get (codes "VMI_MONITOR_LOG") env ≡ some (codes "/vmi/log"))
    × (get (codes "VMI_MONITOR_RET_ADDR") env ≡ none)
start_instance-environ_example =
    start_instance-environ (codes "vm") (codes "log") world (pos 0x101000) none (codes "/vmi/log")
      refl

resolve_lem_example :
    (resolve_syscall_addr (other_symbol ∷ hook_line 10 0x101000 ∷ []) ≡ ok (pos 0x101000))
    × (resolve_syscall_ret_addr (push ∷ instruction (codes "  ") 0 0x101050 jump ∷ [])
        ≡ ok (pos 0x101050))
unfolding is_hook_line ends_with is_return_line contains is_space instruction padded zeros digits
resolve_lem_example =
    resolve_lem (other_symbol ∷ []) [] 10 0x101000 (push ∷ []) [] (codes "  ") jump 0 0x101050
      (refl, tt) (refl, tt) (refl, (refl, tt)) refl
