-- ===== src/Nat/Relay.antt =====
-- crates/ceky-nat/src/relay.rs. A `Duration` or an `Instant` is a number of nanoseconds and the present
-- time is an argument; an elapsed time stops at 0. A u64 wraps. An address is a number that the code only
-- carries along, and the texts of the reasons are left out.
pub mod Sessions
pub mod Steps
pub mod Service
mod Tests
use ceky_p2p.Common.{
  ℕ, ◌+◌, ◌-◌, ◌*◌, ◌%◌, ◌^◌, Bool, true, false, not, ◌&&◌, ◌||◌, Option, none, some, List, [], ◌∷◌,
  ltb, leb, if◌then◌else◌, length,
}
use ceky_p2p.Common.Outcome.{Outcome, ok, err, ◌>>=◌, ◌>>◌, guard}
use ceky_p2p.Common.Maps.{lookup, assign, erase}
use ceky_p2p.Common.Float.{Float}
use ceky_p2p.Crypto.PeerId.{PeerId, id_eq}

pub data NatError : Type 0 where
  stun_failed : NatError
  stun_timeout : ℕ → NatError
  hole_punch_failed relay_refused symmetric_nat no_stun_servers io_error : NatError

abbrev pub second : ℕ
second = 1_000_000_000

pub record RelayConfig : Type 0 where
  pub max_bandwidth_bps : ℕ
  pub idle_timeout : ℕ
  pub max_duration : ℕ
  pub max_sessions : ℕ

abbrev pub default_config : RelayConfig
default_config = record {
  max_bandwidth_bps = 512 * 1024;
  idle_timeout = 60 * second;
  max_duration = 3600 * second;
  max_sessions = 100;
}

pub data RelaySessionState : Type 0 where
  pending active closed : RelaySessionState

pub record RelayPeer : Type 0 where
  pub peer_id : PeerId
  pub addr : ℕ
  pub bytes_sent : ℕ
  pub bytes_received : ℕ

abbrev pub new_relay_peer : PeerId → ℕ → RelayPeer
new_relay_peer peer_id addr = record {
  peer_id = peer_id;
  addr = addr;
  bytes_sent = 0;
  bytes_received = 0;
}

pub record RelaySession : Type 0 where
  pub session_id : ℕ
  pub peer_a : RelayPeer
  pub peer_b : RelayPeer
  pub created_at : ℕ
  pub last_activity : ℕ
  pub bytes_relayed : ℕ
  pub state : RelaySessionState

pub record RelayService : Type 0 where
  pub config : RelayConfig
  pub sessions : List (ℕ × RelaySession)
  pub next_session_id : ℕ

abbrev pub new_service : RelayConfig → RelayService
new_service config = record { config = config; sessions = []; next_session_id = 1 }

abbrev pub is_pending : RelaySessionState → Bool
is_pending pending = true
is_pending _ = false

abbrev pub is_active : RelaySessionState → Bool
is_active active = true
is_active _ = false

abbrev pub is_closed : RelaySessionState → Bool
is_closed closed = true
is_closed _ = false

-- Whether `cleanup_expired` takes a session.
abbrev pub is_expired : RelayConfig → ℕ → RelaySession → Bool
is_expired config now s =
    is_closed s.state
    || (ltb config.idle_timeout (now - s.last_activity)
        || ltb config.max_duration (now - s.created_at))

unfoldable pub expired_ids : RelayConfig → ℕ → List (ℕ × RelaySession) → List ℕ
expired_ids config now [] = []
expired_ids config now (e ∷ es) =
    if is_expired config now e.1 then e.0 ∷ expired_ids config now es else expired_ids config now es

unfoldable pub remove_all : List ℕ → List (ℕ × RelaySession) → List (ℕ × RelaySession)
remove_all [] es = es
remove_all (id ∷ ids) es = remove_all ids (erase id es)

unfoldable pub cleanup_expired : RelayService → ℕ → RelayService × ℕ
unfolding expired_ids remove_all
cleanup_expired r now =
    let expired = expired_ids r.config now r.sessions in
    (record r { sessions = remove_all expired r.sessions }, length expired)

-- The part of `create_session` behind the test of the capacity.
unfoldable pub opened_session :
    RelayService → PeerId → ℕ → PeerId → ℕ → ℕ → RelayService × Outcome NatError ℕ
opened_session r peer_a_id peer_a_addr peer_b_id peer_b_addr now =
    let session_id = r.next_session_id in
    (
      record r {
        next_session_id = (session_id + 1) % 2 ^ 64;
        sessions =
            assign session_id
              (record {
                session_id = session_id;
                peer_a = new_relay_peer peer_a_id peer_a_addr;
                peer_b = new_relay_peer peer_b_id peer_b_addr;
                created_at = now;
                last_activity = now;
                bytes_relayed = 0;
                state = pending;
              })
              r.sessions;
      },
      ok session_id,
    )

unfoldable pub create_session :
    RelayService → PeerId → ℕ → PeerId → ℕ → ℕ → RelayService × Outcome NatError ℕ
unfolding cleanup_expired opened_session
create_session r peer_a_id peer_a_addr peer_b_id peer_b_addr now =
    if leb r.config.max_sessions (length r.sessions)
    then (let cleaned = (cleanup_expired r now).0 in
        if leb cleaned.config.max_sessions (length cleaned.sessions)
        then (cleaned, err relay_refused)
        else opened_session cleaned peer_a_id peer_a_addr peer_b_id peer_b_addr now)
    else opened_session r peer_a_id peer_a_addr peer_b_id peer_b_addr now

-- `HashMap::get_mut`, with what is done through it; an error leaves the service as it was.
abbrev pub with_session :
    RelayService
    → ℕ
    → (RelaySession → Outcome NatError RelaySession)
    → Outcome NatError RelayService
with_session r session_id f = elim (lookup session_id r.sessions) [
  | none ↦ err relay_refused
  | some s ↦ do s' ← f s; ok (record r { sessions = assign session_id s' r.sessions })
]

unfoldable pub activated : ℕ → RelaySession → Outcome NatError RelaySession
activated now s = do
  guard (is_pending s.state) relay_refused
  ok (record s { state = active; last_activity = now })

unfoldable pub activate_session : RelayService → ℕ → ℕ → Outcome NatError RelayService
unfolding activated
activate_session r session_id now = with_session r session_id (activated now)

unfoldable pub close_session : RelayService → ℕ → RelayService
close_session r session_id = elim (lookup session_id r.sessions) [
  | none ↦ r
  | some s ↦ record r { sessions = assign session_id (record s { state = closed }) r.sessions }
]

abbrev pub get_session : RelayService → ℕ → Option RelaySession
get_session r session_id = lookup session_id r.sessions

unfoldable pub get_forward_addr : RelayService → ℕ → PeerId → Option ℕ
get_forward_addr r session_id from_peer = elim (lookup session_id r.sessions) [
  | none ↦ none
  | some s ↦
      if not (is_active s.state)
      then none
      else (if id_eq s.peer_a.peer_id from_peer
          then some s.peer_b.addr
          else (if id_eq s.peer_b.peer_id from_peer then some s.peer_a.addr else none))
]

unfoldable pub count_active : List (ℕ × RelaySession) → ℕ
count_active [] = 0
count_active (e ∷ es) = if is_active e.1.state then 1 + count_active es else count_active es

abbrev pub active_sessions : RelayService → ℕ
active_sessions r = count_active r.sessions

abbrev pub total_sessions : RelayService → ℕ
total_sessions r = length r.sessions

abbrev pub sent_bytes : ℕ → RelayPeer → RelayPeer
sent_bytes bytes p = record p { bytes_sent = (p.bytes_sent + bytes) % 2 ^ 64 }

abbrev pub received_bytes : ℕ → RelayPeer → RelayPeer
received_bytes bytes p = record p { bytes_received = (p.bytes_received + bytes) % 2 ^ 64 }

-- The counters of a session through which one peer sends.
unfoldable pub counted : ℕ → Bool → ℕ → RelaySession → RelaySession
counted bytes true now s = record s {
  bytes_relayed = (s.bytes_relayed + bytes) % 2 ^ 64;
  last_activity = now;
  peer_a = sent_bytes bytes s.peer_a;
  peer_b = received_bytes bytes s.peer_b;
}
counted bytes false now s = record s {
  bytes_relayed = (s.bytes_relayed + bytes) % 2 ^ 64;
  last_activity = now;
  peer_b = sent_bytes bytes s.peer_b;
  peer_a = received_bytes bytes s.peer_a;
}

module _ (float : Float) where
  -- Whether a session older than a second is over the limit.
  abbrev pub over_limit : RelayConfig → ℕ → RelaySession → Bool
  over_limit config now s =
      let elapsed = now - s.created_at in
      leb second elapsed
      && float.lt (float.of_nat config.max_bandwidth_bps)
          (float.div (float.of_nat s.bytes_relayed) (float.secs elapsed))

  unfoldable pub relayed : RelayConfig → ℕ → Bool → ℕ → RelaySession → Outcome NatError RelaySession
  unfolding counted
  relayed config bytes from_a now s = do
    guard (is_active s.state) relay_refused
    guard (not (over_limit config now s)) relay_refused
    ok (counted bytes from_a now s)

  unfoldable pub record_relay : RelayService → ℕ → ℕ → Bool → ℕ → Outcome NatError RelayService
  unfolding relayed
  record_relay r session_id bytes from_a now =
      with_session r session_id (relayed r.config bytes from_a now)
