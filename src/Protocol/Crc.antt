-- ===== src/Protocol/Crc.antt =====
-- CRC32C of the crate crc32c, which crates/ceky-protocol calls: the checksum of some bytes, and of
-- more bytes behind others. The result is a u32.
use ceky_p2p.Common.{ℕ, ◌^◌, ◌<◌, List}

pub record Crc32c : Type 0 where
  pub crc32c : List ℕ → ℕ
  pub crc32c_append : ℕ → List ℕ → ℕ
  pub crc32c_append-lt : (crc : ℕ) (bytes : List ℕ) → crc32c_append crc bytes < 2 ^ 32
