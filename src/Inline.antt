-- ===== src/Inline.antt =====
-- run_capture_inline.py: the capture through the patched QEMU and its live view.
pub mod Tail
pub mod Format
pub mod View
pub mod Live
pub mod Resolve
pub mod Armed
pub mod Start
