-- ===== src/Nat/HolePunch.antt =====
-- crates/ceky-nat/src/hole_punch.rs: the packets of a punch and its rounds. What arrives in each round
-- is an argument; waiting and the logging of failed sends are left out.
mod First
mod Tests
use ceky_p2p.Common.{
  ℕ, zero, suc, ◌+◌, ◌-◌, ◌%◌, ◌^◌, Bool, ◌&&◌, List, [], ◌∷◌, ◌++◌, leb, if◌then◌else◌, length,
  take,
}
use ceky_p2p.Common.Bytes.{be_bytes}
use ceky_p2p.Common.Outcome.{Outcome, ok, err}
use ceky_p2p.Crypto.PeerId.{id_eq}
use ceky_p2p.Protocol.Find.{SocketAddr}
use ceky_p2p.Nat.Relay.{NatError, hole_punch_failed}

-- Times are nanoseconds.
pub record HolePunchConfig : Type 0 where
  pub packets_per_round : ℕ
  pub packet_interval : ℕ
  pub max_rounds : ℕ
  pub round_timeout : ℕ
  pub magic : List ℕ

abbrev pub default_config : HolePunchConfig
default_config = record {
  packets_per_round = 3;
  packet_interval = 50_000_000;
  max_rounds = 10;
  round_timeout = 500_000_000;
  magic = b'C' ∷ b'E' ∷ b'K' ∷ b'Y' ∷ [];
}

pub record HolePunchResult : Type 0 where
  pub peer_addr : SocketAddr
  pub duration : ℕ
  pub rounds : ℕ

pub build_punch_packet : HolePunchConfig → ℕ → ℕ → List ℕ
build_punch_packet config round seq = config.magic ++ (be_bytes 4 round ++ be_bytes 4 seq)

-- `&data[..4]` is compared only where there are four bytes.
pub is_punch_packet : HolePunchConfig → List ℕ → Bool
is_punch_packet config packet = leb 4 (length packet) && id_eq (take 4 packet) config.magic

-- The packets of a round, from the given number on.
packets : HolePunchConfig → ℕ → ℕ → ℕ → List (List ℕ)
unfolding build_punch_packet
packets config round zero seq = []
packets config round (suc left) seq =
    build_punch_packet config (round % 2 ^ 32) (seq % 2 ^ 32) ∷ packets config round left (suc seq)

-- What `recv_from` gives in a round: bytes with their sender and the time since the start, an error, or
-- nothing in time.
pub data Received : Type 0 where
  arrived : List ℕ → SocketAddr → ℕ → Received
  recv_error timed_out : Received

judge :
    HolePunchConfig
    → ℕ
    → Received
    → Outcome NatError HolePunchResult
    → Outcome NatError HolePunchResult
unfolding is_punch_packet
judge config round (arrived packet from duration) rest =
    if is_punch_packet config packet
    then ok (record { peer_addr = from; duration = duration; rounds = round + 1 })
    else rest
judge config round recv_error rest = rest
judge config round timed_out rest = rest

-- The rounds from the given one on.
punch_from : HolePunchConfig → (ℕ → Received) → ℕ → ℕ → Outcome NatError HolePunchResult
unfolding judge
punch_from config received zero round = err hole_punch_failed
punch_from config received (suc left) round =
    judge config round (received round) (punch_from config received left (suc round))

pub punch : HolePunchConfig → (ℕ → Received) → Outcome NatError HolePunchResult
unfolding punch_from
punch config received = punch_from config received config.max_rounds 0

-- Everything that a whole punch without an answer sends.
sent_from : HolePunchConfig → ℕ → ℕ → List (List ℕ)
unfolding packets
sent_from config zero round = []
sent_from config (suc left) round =
    packets config round config.packets_per_round 0 ++ sent_from config left (suc round)

pub punch_packets : HolePunchConfig → List (List ℕ)
unfolding sent_from
punch_packets config = sent_from config config.max_rounds 0
