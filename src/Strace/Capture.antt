-- ===== src/Strace/Capture.antt =====
-- `parse_vmi_jsonl`: the names in a captured log, in order.
pub mod Events
pub mod Run
use unikernel_syscall_monito.Base.{◌≡◌, List, [], ◌∷◌, Option, none, some, if◌then◌else◌}
use unikernel_syscall_monito.Base.Result.{Result, ok, raise, key_error, type_error, ◌>>=◌}
use unikernel_syscall_monito.Base.Text.{Text, codes}
use unikernel_syscall_monito.Json.Value.{Json, null, bool, int, real, str, arr, obj, get}
use unikernel_syscall_monito.Gdbstub.Instance.{loads_or_raise}
use unikernel_syscall_monito.Py.Strip.{strip}

abbrev found : Option Json → Result Json
found none = raise key_error
found (some v) = ok v

-- `value["syscall"]`, whatever the value is.
unfoldable pub syscall_of : Json → Result Json
syscall_of (obj fields) = found (get (codes "syscall") fields)
syscall_of null = raise type_error
syscall_of (bool b) = raise type_error
syscall_of (int n) = raise type_error
syscall_of (real r) = raise type_error
syscall_of (str s) = raise type_error
syscall_of (arr items) = raise type_error

-- `names.append(json.loads(line)["syscall"])` for a line that is stripped, unless it is empty.
unfoldable pub with_line : Text → Result (List Json) → Result (List Json)
unfolding syscall_of
with_line [] names = names
with_line (c ∷ s) names = do
  v ← loads_or_raise (c ∷ s)
  name ← syscall_of v
  rest ← names
  ok (name ∷ rest)

-- From the lines of the file.
unfoldable pub parse_vmi_jsonl : List Text → Result (List Json)
unfolding with_line
parse_vmi_jsonl [] = ok []
parse_vmi_jsonl (line ∷ lines) = with_line (strip line) (parse_vmi_jsonl lines)
