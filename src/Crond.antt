-- ===== src/Crond.antt =====
-- crond: the entries of a crontab, and the section of a crontab that resticprofile keeps.
pub mod Entry
pub mod Crontab
pub mod Program
