-- ===== src/Crypto.antt =====
-- crates/ceky-crypto: the replay window and the secure session built on it, the identity of a node,
-- and the handshake that gives a session its keys.
pub mod Replay
pub mod Aead
pub mod Suite
mod Transparent
pub mod Session
pub mod PeerId
pub mod Identity
pub mod Noise
