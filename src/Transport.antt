-- ===== src/Transport.antt =====
-- crates/gw-transport: the link between the client and the gateway.
pub mod Framed
pub mod Delivery
pub mod Tls
pub mod Endpoint
mod Tests
