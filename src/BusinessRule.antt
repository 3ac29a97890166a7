-- ===== src/BusinessRule.antt =====
-- The rule trees of business items: alignak/dependencynode.py.
pub mod Node
pub mod Aggregates
pub mod Total
pub mod Negation
pub mod Order
pub mod Monotone
pub mod Elements
pub mod Xof
mod Examples
