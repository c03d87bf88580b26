-- ===== src/Proto.antt =====
-- crates/gw-proto: the wire protocol between the client and the gateway.
pub mod Frame
pub mod Codec
pub mod Header
mod Suite
