-- ===== src/Monitor/Hook.antt =====
-- Where monitor.py sets its breakpoint, and what it does when gdb reads it.
use unikernel_syscall_monito.Base.{Option, none, some, List, [], ◌∷◌, ◌++◌}
use unikernel_syscall_monito.Base.Text.{Text, codes}
use unikernel_syscall_monito.Monitor.Handler.{Breakpoint, new_breakpoint}

-- `_resolve_hook_address`, from the text of gdb's error, if its parser cannot find the symbol: the
-- location, and what is printed.
unfoldable pub resolve_hook_address : Option Text → Text × List Text
resolve_hook_address none = (codes "*_ukplat_syscall", [])
resolve_hook_address (some error) = (
  codes "*0x101000",
  (codes "[monitor.py] WARNING: could not resolve _ukplat_syscall symbol ("
        ++ error
        ++ codes
            "), falling back to hardcoded address 0x101000. This address is only valid for the exact build this was checked against -- verify it before trusting captured data.")
      ∷ [],
)

-- The end of the module, which sets the breakpoint at a location.
unfoldable pub load_monitor : Option Text → List Text → Text → Text × Breakpoint
unfolding resolve_hook_address
load_monitor error old_log log_path =
    let (location, warning) = resolve_hook_address error in
    let b = new_breakpoint old_log log_path in
    (
      location,
      record b {
        printed =
            warning
            ++ b.printed
            ++ codes "[monitor.py] breakpoint armed, auto-continuing on every hit" ∷ [];
      },
    )
