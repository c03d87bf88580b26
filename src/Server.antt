-- ===== src/Server.antt =====
-- crates/gw-server: the daemon.
pub mod Conn
pub mod Wait
pub mod Rely
pub mod Signer
pub mod Negotiate
pub mod Serve
pub mod HttpHook
pub mod Config
pub mod Start
pub mod Main
pub mod Concurrent
pub mod Tests
