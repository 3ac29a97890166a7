-- ===== src/Serialization.antt =====
-- What the daemons send each other: alignak/misc/serialization.py, and the two classes of
-- alignak/dependencynode.py and alignak/external_command.py that it writes and reads back.
pub mod Values
pub mod Reading
pub mod Plain
pub mod Pieces
pub mod Trip
pub mod Relay
mod Examples
