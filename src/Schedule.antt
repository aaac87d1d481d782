-- ===== src/Schedule.antt =====
-- schedule/ and schedule_jobs.go: the jobs that run the commands of a profile on a schedule.
pub mod Config
pub mod Parsing
pub mod Job
pub mod Jobs
pub mod Launchd
pub mod Cron
