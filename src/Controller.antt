-- ===== src/Controller.antt =====
-- The local controller's durable state (core/controller).
pub mod Types
pub mod Contracts
pub mod Event
pub mod Dispatch
pub mod PostRun
pub mod Reduce
pub mod Demo
pub mod Attempts
