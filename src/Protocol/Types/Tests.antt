-- ===== src/Protocol/Types/Tests.antt =====
-- The laws of crates/ceky-protocol/src/types.rs at concrete inputs.

use ceky_p2p.Protocol.Types.{Flags}

abbrev some_flags : Flags
some_flags = record { bits = 0x82 }
