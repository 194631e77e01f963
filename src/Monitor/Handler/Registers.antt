-- ===== src/Monitor/Handler/Registers.antt =====
-- The arguments of an event.
use unikernel_syscall_monito.Base.{
  refl, some, List, [], ◌∷◌, map, ◌≡◌, arith, length, take, length-map, length-take,
}
use unikernel_syscall_monito.Base.Int.{ℤ}
use unikernel_syscall_monito.Py.Number.{hex}
use unikernel_syscall_monito.Py.Hex.{int16}
use unikernel_syscall_monito.Py.Hex.RoundTrip.{int16-hex}
use unikernel_syscall_monito.Monitor.Table.{lookup_syscall}
use unikernel_syscall_monito.Monitor.Table.Laws.{lookup_syscall-argc-le}
use unikernel_syscall_monito.Monitor.Handler.Event.{Hit, arg_regs, make_event}

-- An event has as many arguments as the table says, for every number: the registers suffice.
pub length-args : (h : Hit) → length (make_event h).args ≡ (lookup_syscall h.rax).1
unfolding make_event
length-args h = omega (
  arith,
  length-map hex (take (lookup_syscall h.rax).1 (arg_regs h)),
  length-take (lookup_syscall h.rax).1 (arg_regs h),
  lookup_syscall-argc-le h.rax,
)

int16-map-hex : (ns : List ℤ) → map int16 (map hex ns) ≡ map some ns
int16-map-hex [] = refl
int16-map-hex (n ∷ ns) = rw (int16-hex n, int16-map-hex ns) refl

-- The arguments, read as numbers in base 16, are the first registers, as many as the table says.
pub int16-args :
    (h : Hit)
    → map int16 (make_event h).args ≡ map some (take (lookup_syscall h.rax).1 (arg_regs h))
unfolding make_event
int16-args h = int16-map-hex (take (lookup_syscall h.rax).1 (arg_regs h))
