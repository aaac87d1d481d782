-- ===== src/Calendar.antt =====
-- The package calendar.
pub mod Value
pub mod Units
pub mod Event
