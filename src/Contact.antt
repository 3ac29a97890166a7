-- ===== src/Contact.antt =====
-- Who is notified: alignak/objects/contact.py, alignak/objects/notificationway.py and
-- `scatter_notification` of alignak/objects/schedulingitem.py.
pub mod Ways
pub mod Scatter
pub mod Sent
pub mod Once
mod Examples
