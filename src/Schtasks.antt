-- ===== src/Schtasks.antt =====
-- schtasks/: the tasks of the Windows Task Scheduler.
pub mod Bitmaps
pub mod Triggers
pub mod Tasks
