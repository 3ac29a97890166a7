-- ===== src/Link.antt =====
-- The links to the daemons: alignak/objects/satellitelink.py and the connection of alignak/daemon.py.
pub mod Satellite
pub mod Life
pub mod Connection
mod Examples
