-- ===== src/Tests/Traces.antt =====
-- validate_strace.py at concrete lines.
use unikernel_syscall_monito.Base.{◌≡◌, refl, some, none, ◌++◌, [], ◌∷◌}
use unikernel_syscall_monito.Base.Text.{codes}
use unikernel_syscall_monito.Strace.Line.{
  search_line, is_ident_start, name_rest, is_ident, closes, equals_next,
}
use unikernel_syscall_monito.Strace.Line.Sound.{call, search_line-call, IsCall, search_line-IsCall}
use unikernel_syscall_monito.Strace.Capture.{parse_vmi_jsonl}
use unikernel_syscall_monito.Base.Result.{raise, key_error, type_error}
use unikernel_syscall_monito.Json.Loads.{
  loads, at_end, read_value, skip, first_field, read_key, read_string, read_colon, read_scalar,
  read_number, after_field, first_item,
}
use unikernel_syscall_monito.Gdbstub.Instance.{loads_or_raise}
use unikernel_syscall_monito.Py.Strip.{is_space, strip, starts_with}
use unikernel_syscall_monito.Json.Value.{get}

search_line-call_example :
    search_line
      (codes " [2] " ++ call (codes "read") (codes "fd:3, <in> (5)") (codes " ") (codes " 5"))
    ≡ some (codes "read")
unfolding is_ident_start is_ident is_space
search_line-call_example =
    search_line-call (codes " [2] ") (codes "read") (codes "fd:3, <in> (5)") (codes " ")
      (codes " 5") (refl, (refl, (refl, (refl, (refl, tt))))) (refl, (refl, (refl, (refl, tt))))
      (refl, tt)

nested : search_line (codes "read(fd:3) = 5") ≡ some (codes "read")
unfolding search_line is_ident_start name_rest is_ident closes equals_next is_space
nested = refl

no_result : search_line (codes "exit_group(0)") ≡ none
unfolding search_line is_ident_start name_rest is_ident closes equals_next
no_result = refl

search_line-IsCall_example : IsCall (codes "read(fd:3) = 5") (codes "read")
search_line-IsCall_example = search_line-IsCall (codes "read(fd:3) = 5") (codes "read") nested

-- A line without the key, and a line that is no object.
without_name : parse_vmi_jsonl ((codes "{\"num\": 1}\n") ∷ []) ≡ raise key_error
unfolding parse_vmi_jsonl loads_or_raise loads strip is_space at_end read_value skip first_field
    read_key read_string read_colon read_scalar starts_with read_number after_field get
without_name = refl

no_object : parse_vmi_jsonl (codes " \n" ∷ codes "[]\n" ∷ []) ≡ raise type_error
unfolding parse_vmi_jsonl loads_or_raise loads strip is_space at_end read_value skip first_item
no_object = refl
