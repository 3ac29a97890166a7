-- ===== src/Impact.antt =====
-- Problems and their impacts, over all items: `set_myself_as_problem`, `no_more_a_problem` and the
-- methods that these call, of alignak/objects/schedulingitem.py.
pub mod Ties
pub mod Problems
pub mod Counts
pub mod Linked
pub mod Ended
pub mod Excused
pub mod Added
pub mod Registers
pub mod Registered
pub mod Settled
pub mod Raised
mod Examples
