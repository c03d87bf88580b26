-- ===== src/Quota.antt =====
-- crates/gw-core/src/quota.rs: what the control plane grants, and how the gateway meters and limits.
pub mod Hook
pub mod Float
pub mod Bucket
pub mod Meter
pub mod Rate
mod Tests
mod Suite
