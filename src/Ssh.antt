-- ===== src/Ssh.antt =====
-- crates/gw-ssh/src/lib.rs: the SSH client that connects the gateway to a target host.
pub mod Client
pub mod Open
pub mod Actor
pub mod Steady
pub mod Tests
