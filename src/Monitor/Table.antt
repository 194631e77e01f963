-- ===== src/Monitor/Table.antt =====
-- `SYSCALL_TABLE` of syscall_table.py, and the lookup with its default that monitor.py makes.
pub mod Laws
pub mod Row
mod Low
mod High
use Low.{low_entries}
use High.{high_entries}
pub use Row.{Entry}
use unikernel_syscall_monito.Base.{
  ℕ, ◌++◌, ◌≡◌, refl, Option, none, some, List, [], ◌∷◌, Bool, true, false, ◌&&◌, ltb, leb, ◌==◌,
  if◌then◌else◌, arith, all,
}
use unikernel_syscall_monito.Base.Int.{ℤ, pos, negsuc}
use unikernel_syscall_monito.Base.Text.{Text, codes}
use unikernel_syscall_monito.Py.Number.{str}

unfoldable pub syscall_table : List Entry
unfolding low_entries high_entries
syscall_table = low_entries ++ high_entries

unfoldable pub find : ℕ → List Entry → Option Entry
find n [] = none
find n (e ∷ es) = if n == e.num then some e else find n es

-- `SYSCALL_TABLE.get(rax, (f"syscall_{rax}", 6))`
unfoldable pub lookup_syscall : ℤ → Text × ℕ
lookup_syscall (pos n) = elim (find n syscall_table) [
  | none ↦ (codes "syscall_" ++ str (pos n), 6)
  | some e ↦ (e.name, e.argc)
]
lookup_syscall (negsuc n) = (codes "syscall_" ++ str (negsuc n), 6)
