-- ===== src/Resource.antt =====
-- Admission of tasks to nodes (packages/engine-primitives/resource-quota.mjs, scheduler.mjs and
-- resource.mjs).
pub mod Quota
pub mod Gpu
pub mod Node
pub mod Samples
