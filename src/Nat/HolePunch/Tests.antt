-- ===== src/Nat/HolePunch/Tests.antt =====
-- Punches of crates/ceky-nat/src/hole_punch.rs with concrete packets.
use ceky_p2p.Common.{ℕ, suc, zero, ◌≡◌, ◌<◌, refl, arith, true, false, List, [], ◌∷◌, length}
use ceky_p2p.Common.Bytes.{be_bytes}
use ceky_p2p.Common.Outcome.{ok}
use ceky_p2p.Crypto.PeerId.{id_eq}
use ceky_p2p.Protocol.Find.{SocketAddr, v4}
use ceky_p2p.Nat.HolePunch.{
  default_config, build_punch_packet, is_punch_packet, Received, arrived, timed_out, punch,
  punch_packets,
}
use ceky_p2p.Nat.HolePunch.First.{IsMiss, punch_first}

packet_format :
    build_punch_packet default_config 5 2
    ≡ b'C' ∷ b'E' ∷ b'K' ∷ b'Y' ∷ 0 ∷ 0 ∷ 0 ∷ 5 ∷ 0 ∷ 0 ∷ 0 ∷ 2 ∷ []
unfolding build_punch_packet be_bytes
packet_format = refl

no_packet : is_punch_packet default_config [] ≡ false
unfolding is_punch_packet
no_packet = refl

sends_thirty : length (punch_packets default_config) ≡ 30
unfolding punch_packets
sends_thirty = refl

abbrev stranger : SocketAddr
stranger = v4 (9 ∷ 9 ∷ 9 ∷ 9 ∷ []) 1

abbrev answer : List ℕ
answer = b'C' ∷ b'E' ∷ b'K' ∷ b'Y' ∷ []

-- Nothing in the first round.
abbrev second_round : ℕ → Received
second_round zero = timed_out
second_round (suc n) = arrived answer stranger 600

missed : (m : ℕ) → m < 1 → IsMiss default_config (second_round m)
missed zero less = tt
missed (suc m) less = absurd (omega arith)

accepted : is_punch_packet default_config answer ≡ true
unfolding is_punch_packet id_eq
accepted = refl

second_round_succeeds :
    punch default_config second_round
    ≡ ok (record { peer_addr = stranger; duration = 600; rounds = 2 })
second_round_succeeds =
    punch_first default_config second_round 1 answer stranger 600 (omega arith) missed refl accepted
