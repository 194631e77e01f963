-- ===== src/Strace.antt =====
-- validate_strace.py: the captured sequence against the guest's own trace.
pub mod Capture
pub mod Line
pub mod Report
pub mod Main
