-- ===== src/Specification.antt =====
-- The specification module (ascetic_ddd/specification/domain): expression nodes, their evaluation by
-- a visitor, and the proofs about both.
pub mod Nodes
pub mod Visitor
pub mod Evaluation
pub mod Scopes
pub mod Collections
pub mod Correctness
pub mod Paths
pub mod Connectives
pub mod NestedItems
pub mod Schema
pub mod Sql
pub mod Transform
mod Tests
