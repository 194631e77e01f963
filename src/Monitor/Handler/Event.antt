-- ===== src/Monitor/Handler/Event.antt =====
-- The event that `stop` makes of the registers, and its line.
use unikernel_syscall_monito.Base.{ℕ, ◌-◌, List, [], ◌∷◌, map, take}
use unikernel_syscall_monito.Base.Int.{ℤ, pos}
use unikernel_syscall_monito.Base.Text.{Text, codes}
use unikernel_syscall_monito.Json.Value.{
  Json, int, real, str, arr, obj, Items, nil, item, end, field, Real,
}
use unikernel_syscall_monito.Json.Dumps.{dumps}
use unikernel_syscall_monito.Py.Number.{hex}
use unikernel_syscall_monito.Monitor.Table.{lookup_syscall}

-- The registers at the breakpoint, and the readings of the clocks during `stop`: `time.time()`
-- and the two of `time.perf_counter()`, in nanoseconds.
pub record Hit : Type 0 where
  pub rax : ℤ
  pub rdi : ℤ
  pub rsi : ℤ
  pub rdx : ℤ
  pub r10 : ℤ
  pub r8 : ℤ
  pub r9 : ℤ
  pub now : Real
  pub t_enter : ℕ
  pub t_exit : ℕ

pub record Event : Type 0 where
  pub ts : Real
  pub num : ℤ
  pub syscall : Text
  pub args : List Text
  pub handler_latency_ns : ℤ

abbrev pub arg_regs : Hit → List ℤ
arg_regs h = h.rdi ∷ h.rsi ∷ h.rdx ∷ h.r10 ∷ h.r8 ∷ h.r9 ∷ []

unfoldable pub make_event : Hit → Event
make_event h =
    let (name, argc) = lookup_syscall h.rax in
    record {
      ts = h.now;
      num = h.rax;
      syscall = name;
      args = map hex (take argc (arg_regs h));
      handler_latency_ns = pos (h.t_exit - h.t_enter);
    }

abbrev pub texts : List Text → Items
texts [] = nil
texts (t ∷ ts) = item (str t) (texts ts)

unfoldable pub event_json : Event → Json
event_json e = obj (
    field (codes "ts") (real e.ts) (
      field (codes "num") (int e.num) (
        field (codes "syscall") (str e.syscall) (
          field (codes "args") (arr (texts e.args))
            (field (codes "handler_latency_ns") (int e.handler_latency_ns) end)))))

-- `json.dumps(event)`
unfoldable pub event_line : Hit → Text
event_line h = dumps (event_json (make_event h))
