-- ===== src/Requirement.antt =====
-- Requirement graphs (packages/engine-primitives/requirement-graph.mjs).
pub mod Check
pub mod Facts
pub mod Sets
pub mod Nodes
pub mod Order
pub mod Constraints
pub mod Draft
pub mod Samples
pub mod Canonical
pub mod Stamp
pub mod Record
pub mod Authorization
pub mod Approved
