-- ===== src/Scheduler.antt =====
-- The queues of the scheduler: alignak/scheduler.py, with the checks and actions of alignak/action.py.
pub mod Jobs
pub mod Queues
pub mod Polling
pub mod Results
pub mod Timeouts
pub mod Consuming
pub mod Rounds
pub mod Handed
pub mod Orphans
-- pub mod Resolved
mod Examples
