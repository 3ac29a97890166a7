-- ===== src/Escalation.antt =====
-- When a notification is escalated, to whom, and when the next one is due:
-- alignak/objects/escalation.py and the methods of alignak/objects/schedulingitem.py that ask it.
pub mod Rules
pub mod Times
pub mod Letters
mod Examples
