-- ===== src/Bench.antt =====
-- The benchmarks: bench_overhead.py and bench_overhead_inline.py.
pub mod Reps
pub mod Pattern
pub mod Ab
pub mod Summary
pub mod Compare
pub mod Overhead
pub mod Inline
