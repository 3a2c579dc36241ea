-- ===== src/Recovery.antt =====
-- internal/recovery/recovery.go: the duties of the leader.
pub mod Duties
pub mod Loops
pub mod Sweep
pub mod Cadence
pub mod Entries
mod Samples
