-- ===== src/Protocol.antt =====
-- crates/ceky-protocol: the frames on the wire, their codec, and the messages that they carry.
pub mod Types
pub mod Crc
pub mod Codec
pub mod Transfer
pub mod Find
