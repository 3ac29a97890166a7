-- ===== src/Graph.antt =====
-- The graphs of dependencies, their loops and their packs: alignak/graph.py.
pub mod Nodes
pub mod Tags
pub mod Search
pub mod Loops
pub mod Turns
pub mod Acyclic
pub mod Closed
pub mod Packs
pub mod Visits
pub mod Covered
mod Examples
