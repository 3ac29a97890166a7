-- ===== src/Item.antt =====
-- The monitored items, hosts and services: alignak/objects/schedulingitem.py, host.py, service.py.
pub mod Kinds
pub mod Types
pub mod Checks
pub mod Logs
pub mod Notifications
pub mod Acknowledging
pub mod Downtimes
pub mod Flap
pub mod States
pub mod Dependencies
pub mod Branches
pub mod Consume
pub mod Frames
pub mod Machine
pub mod Outcome
pub mod Attempts
pub mod Streak
pub mod Quiet
pub mod Silence
pub mod Recovery
pub mod DowntimeDepth
pub mod FlapRate
pub mod Doubles
pub mod Blocking
pub mod AcknowledgeLaws
pub mod Schedule
pub mod Planning
pub mod Samples
mod Examples
mod Plans
