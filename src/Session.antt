-- ===== src/Session.antt =====
-- The scripts that put the parts together: the environment that run_capture.py hands to gdb, the gdb
-- process of gdb_session.py, `main` of run_capture.py, and the waiting loops of
-- run_capture_from_boot.py.
pub mod Environment
pub mod Load
pub mod Script
pub mod Gdb
pub mod Stream
pub mod Chain
pub mod Host
pub mod Capture
pub mod Waits
pub mod Boot
