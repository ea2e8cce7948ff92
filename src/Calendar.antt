-- ===== src/Calendar.antt =====
-- The import of calendars from other servers.
pub mod Address
pub mod Fetch
pub mod Sync
pub mod Schedule
