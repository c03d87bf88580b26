-- ===== src/Core.antt =====
-- crates/gw-core/src/lib.rs: the session manager.
pub mod Scrollback
pub mod Reader
pub mod Registry
pub mod Lifetime
mod Tests
mod Suite
