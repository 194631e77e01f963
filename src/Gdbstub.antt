-- ===== src/Gdbstub.antt =====
-- attach_gdbstub.py: a gdbstub for a running instance, through QEMU's text monitor.
pub mod Hmp
pub mod Attach
pub mod Port
pub mod Instance
pub mod Main
