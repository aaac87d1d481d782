-- ===== src/Locks.antt =====
-- lock/lock.go and lockRun of wrapper.go: the lock file that keeps a profile from running twice.
pub mod File
pub mod Run
