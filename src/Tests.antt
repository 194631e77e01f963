-- ===== src/Tests.antt =====
-- The theorems at concrete inputs, and runs of the definitions.
mod Captures
mod Tails
mod Monitors
mod Traces
mod Sessions
mod Waits
mod Starts
mod Reports
mod AbOutput
mod Benches
mod Streams
mod Live
mod Validation
