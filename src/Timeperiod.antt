-- ===== src/Timeperiod.antt =====
-- The time periods of alignak/objects/timeperiod.py.
pub mod Periods
pub mod Merged
pub mod Search
pub mod Sooner
pub mod Found
pub mod Activation
mod Examples
