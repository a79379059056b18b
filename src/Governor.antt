-- ===== src/Governor.antt =====
-- The governor's locks (core/governor.mjs).
pub mod Scope
pub mod Lock
pub mod Gate
pub mod Lost
pub mod Samples
