-- ===== src/Transfer.antt =====
-- crates/ceky-transfer: sending and receiving files.
pub mod Merkle
pub mod Manager
