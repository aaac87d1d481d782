-- ===== src/Tests.antt =====
-- The theorems at concrete inputs, and runs of the models on inputs that the repository's tests use.
mod Values
mod Events
mod Runs
mod Files
mod Arguments
mod Reports
mod Scheduling
mod Jobs
mod Templates
mod Launchd
mod Versions
mod Manuals
mod Cron
mod Locking
