-- ===== src/Monitor.antt =====
-- monitor/: what is told about a run, and the status file.
pub mod Errors
pub mod Profile
pub mod Status
pub mod Progress
