-- ===== src/Transport.antt =====
-- crates/ceky-transport: the state of a connection and the pool of connections.
pub mod Connection
pub mod Pool
