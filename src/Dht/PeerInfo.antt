-- ===== src/Dht/PeerInfo.antt =====
-- crates/ceky-dht/src/peer_info.rs. A `Duration` or an `Instant` is a number of nanoseconds, and the
-- present time is an argument; an elapsed time stops at 0, as in `Instant::elapsed`. A counter of type
-- u64 wraps. An address is a number that the code only carries along.
use ceky_p2p.Common.{ℕ, ◌+◌, ◌-◌, ◌/◌, ◌%◌, ◌^◌, Bool, true, false, ◌==◌, if◌then◌else◌}
use ceky_p2p.Crypto.PeerId.{PeerId}
use ceky_p2p.Common.Float.{Float}

pub data PeerState : Type 0 where
  discovered active suspect dead : PeerState

-- Whether a peer in this state may be asked.
abbrev pub usable : PeerState → Bool
usable discovered = true
usable active = true
usable suspect = false
usable dead = false

module _ (float : Float) where
  open float use {F64, of_nat, secs, add, sub, mul, div, min, max, log2}

  pub record PeerScore : Type 0 where
    pub avg_latency_ms : F64
    pub successes : ℕ
    pub failures : ℕ
    pub bytes_relayed : ℕ
    pub uptime : ℕ
    pub first_seen : ℕ
    pub latency_sum_ms : F64

  pub new_score : ℕ → PeerScore
  new_score now = record {
    avg_latency_ms = of_nat 0;
    successes = 0;
    failures = 0;
    bytes_relayed = 0;
    uptime = 0;
    first_seen = now;
    latency_sum_ms = of_nat 0;
  }

  pub record_success : PeerScore → ℕ → ℕ → PeerScore
  record_success s latency now =
      let successes = (s.successes + 1) % 2 ^ 64 in
      let latency_ms = mul (secs latency) (of_nat 1000) in
      let latency_sum_ms = add s.latency_sum_ms latency_ms in
      record s {
        successes = successes;
        latency_sum_ms = latency_sum_ms;
        avg_latency_ms = div latency_sum_ms (of_nat successes);
        uptime = now - s.first_seen;
      }

  pub record_failure : PeerScore → ℕ → PeerScore
  record_failure s now = record s {
    failures = (s.failures + 1) % 2 ^ 64;
    uptime = now - s.first_seen;
  }

  pub record_relay : PeerScore → ℕ → PeerScore
  record_relay s bytes = record s { bytes_relayed = (s.bytes_relayed + bytes) % 2 ^ 64 }

  pub composite_score : PeerScore → F64
  composite_score s =
      let reliability =
        div (mul (of_nat s.successes) (of_nat 10)) (add (of_nat s.failures) (of_nat 1)) in
      let latency_penalty = div s.avg_latency_ms (of_nat 100) in
      let uptime_bonus = div (min (of_nat (s.uptime / 1_000_000_000)) (of_nat 3600)) (of_nat 360) in
      let relay_bonus = div (max (log2 (of_nat s.bytes_relayed)) (of_nat 0)) (of_nat 10) in
      add (add (sub reliability latency_penalty) uptime_bonus) relay_bonus

  pub success_rate : PeerScore → F64
  success_rate s =
      let total = (s.successes + s.failures) % 2 ^ 64 in
      if total == 0 then of_nat 0 else mul (div (of_nat s.successes) (of_nat total)) (of_nat 100)

  pub record PeerInfo : Type 0 where
    pub peer_id : PeerId
    pub addr : ℕ
    pub state : PeerState
    pub score : PeerScore
    pub last_seen : ℕ
    pub added_at : ℕ

  unfoldable pub new_peer : PeerId → ℕ → ℕ → PeerInfo
  unfolding new_score
  new_peer peer_id addr now = record {
    peer_id = peer_id;
    addr = addr;
    state = discovered;
    score = new_score now;
    last_seen = now;
    added_at = now;
  }

  unfoldable pub mark_active : PeerInfo → ℕ → ℕ → PeerInfo
  unfolding record_success
  mark_active p latency now = record p {
    state = active;
    last_seen = now;
    score = record_success p.score latency now;
  }

  unfoldable pub mark_suspect : PeerInfo → ℕ → PeerInfo
  unfolding record_failure
  mark_suspect p now = record p { state = suspect; score = record_failure p.score now }

  unfoldable pub mark_dead : PeerInfo → PeerInfo
  mark_dead p = record p { state = dead }

  unfoldable pub touch : PeerInfo → ℕ → PeerInfo
  touch p now = record p { last_seen = now }

  pub idle_time : PeerInfo → ℕ → ℕ
  idle_time p now = now - p.last_seen

  abbrev pub is_usable : PeerInfo → Bool
  is_usable p = usable p.state
