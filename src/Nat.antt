-- ===== src/Nat.antt =====
-- crates/ceky-nat: what a node learns of its own address, and relaying for peers that cannot reach one
-- another.
pub mod Relay
pub mod Stun
pub mod Detection
pub mod HolePunch
