-- ===== src/Netproto.antt =====
-- internal/netproto: the binary protocol of the clients.
pub mod Primitives
pub mod Record
pub mod Frame
pub mod Messages
mod Examples
