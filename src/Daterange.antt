-- ===== src/Daterange.antt =====
-- The ranges of dates that time periods are made of: alignak/daterange.py.
pub mod Calendar
pub mod Ranges
pub mod Bounds
pub mod Days
pub mod Starts
pub mod Fixed
pub mod First
pub mod Valid
pub mod Expired
pub mod Samples
mod Examples
