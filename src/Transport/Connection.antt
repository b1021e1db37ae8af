-- ===== src/Transport/Connection.antt =====
-- crates/ceky-transport/src/connection.rs. A `Duration` or an `Instant` is a number of nanoseconds and the
-- present time is an argument; an elapsed time stops at 0. A counter wraps at its width. An address is a
-- number that the code only carries along.
use ceky_p2p.Common.{
  ℕ, ◌+◌, ◌-◌, ◌*◌, ◌%◌, ◌^◌, ◌≤◌, ◌<◌, ◌≡◌, arith, Bool, true, false, not, Option, none, some, leb,
  if◌then◌else◌,
}

pub data ConnectionState : Type 0 where
  connecting established closing closed : ConnectionState

abbrev pub is_established : ConnectionState → Bool
is_established established = true
is_established _ = false

pub record ConnectionConfig : Type 0 where
  pub heartbeat_interval : ℕ
  pub heartbeat_timeout : ℕ
  pub max_missed_heartbeats : ℕ

abbrev pub default_connection : ConnectionConfig
default_connection = record {
  heartbeat_interval = 15 * 1_000_000_000;
  heartbeat_timeout = 5 * 1_000_000_000;
  max_missed_heartbeats = 3;
}

pub record ConnectionInfo : Type 0 where
  pub peer_addr : ℕ
  pub state : ConnectionState
  pub connected_at : ℕ
  pub last_recv : ℕ
  pub last_send : ℕ
  pub last_ping_sent : Option ℕ
  pub missed_heartbeats : ℕ
  pub bytes_recv : ℕ
  pub bytes_sent : ℕ
  pub frames_recv : ℕ
  pub frames_sent : ℕ
  pub config : ConnectionConfig

unfoldable pub new_connection : ℕ → ConnectionConfig → ℕ → ConnectionInfo
new_connection peer_addr config now = record {
  peer_addr = peer_addr;
  state = connecting;
  connected_at = now;
  last_recv = now;
  last_send = now;
  last_ping_sent = none;
  missed_heartbeats = 0;
  bytes_recv = 0;
  bytes_sent = 0;
  frames_recv = 0;
  frames_sent = 0;
  config = config;
}

abbrev pub set_established : ConnectionInfo → ConnectionInfo
set_established c = record c { state = established }

abbrev pub set_closing : ConnectionInfo → ConnectionInfo
set_closing c = record c { state = closing }

abbrev pub set_closed : ConnectionInfo → ConnectionInfo
set_closed c = record c { state = closed }

abbrev pub record_recv : ConnectionInfo → ℕ → ℕ → ConnectionInfo
record_recv c bytes now = record c {
  last_recv = now;
  bytes_recv = (c.bytes_recv + bytes) % 2 ^ 64;
  frames_recv = (c.frames_recv + 1) % 2 ^ 64;
}

abbrev pub record_send : ConnectionInfo → ℕ → ℕ → ConnectionInfo
record_send c bytes now = record c {
  last_send = now;
  bytes_sent = (c.bytes_sent + bytes) % 2 ^ 64;
  frames_sent = (c.frames_sent + 1) % 2 ^ 64;
}

unfoldable pub record_ping_sent : ConnectionInfo → ℕ → ConnectionInfo
record_ping_sent c now = record c { last_ping_sent = some now }

unfoldable pub record_pong_received : ConnectionInfo → ℕ → ConnectionInfo
record_pong_received c now = record c {
  missed_heartbeats = 0;
  last_ping_sent = none;
  last_recv = now;
}

unfoldable pub record_missed_heartbeat : ConnectionInfo → ConnectionInfo
record_missed_heartbeat c = record c {
  missed_heartbeats = (c.missed_heartbeats + 1) % 2 ^ 32;
  last_ping_sent = none;
}

unfoldable pub should_send_ping : ConnectionInfo → ℕ → Bool
should_send_ping c now = if not (is_established c.state) then false else elim c.last_ping_sent [
  | some t ↦ false
  | none ↦ leb c.config.heartbeat_interval (now - c.last_recv)
]

unfoldable pub is_dead : ConnectionInfo → ℕ → Bool
is_dead c now = elim c.last_ping_sent [
  | none ↦ leb c.config.max_missed_heartbeats c.missed_heartbeats
  | some ping_time ↦
      if leb c.config.heartbeat_timeout (now - ping_time)
      then leb c.config.max_missed_heartbeats ((c.missed_heartbeats + 1) % 2 ^ 32)
      else leb c.config.max_missed_heartbeats c.missed_heartbeats
]

abbrev pub uptime : ConnectionInfo → ℕ → ℕ
uptime c now = now - c.connected_at

abbrev pub idle_time : ConnectionInfo → ℕ → ℕ
idle_time c now = now - c.last_recv

-- Below the wrap of the counter, a ping that waits too long tells that the peer is dead exactly if the peer is dead once
-- the miss is recorded; and no peer is dead right after a pong, unless no miss is allowed.
pub is_dead-record_missed_heartbeat :
    (c : ConnectionInfo) (sent now later : ℕ)
    → c.missed_heartbeats < 2 ^ 32 - 1
    → c.config.heartbeat_timeout ≤ now - sent
    → 0 < c.config.max_missed_heartbeats
    → (is_dead (record_ping_sent c sent) now ≡ is_dead (record_missed_heartbeat c) later)
      × (is_dead (record_pong_received c now) later ≡ false)
unfolding is_dead record_ping_sent record_missed_heartbeat record_pong_received
is_dead-record_missed_heartbeat c sent now later small late some_allowed =
    (ground arith, ground arith)
