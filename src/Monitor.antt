-- ===== src/Monitor.antt =====
-- monitor.py: the capture that runs inside gdb, with syscall_table.py.
pub mod Table
pub mod NrSet
pub mod Handler
pub mod Hook
