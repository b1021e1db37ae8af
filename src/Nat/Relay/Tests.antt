-- ===== src/Nat/Relay/Tests.antt =====
-- A session of crates/ceky-nat/src/relay.rs from its creation to its removal.
use ceky_p2p.Common.{
  ℕ, ◌+◌, ◌-◌, ◌*◌, ◌/◌, ◌≡◌, ◌≢◌, refl, arith, min, max, true, none, some, [], ltb, replicate,
}
use ceky_p2p.Common.Outcome.{Outcome, ok}
use ceky_p2p.Common.Maps.{lookup, IsMap}
use ceky_p2p.Common.Float.{Float}
use ceky_p2p.Crypto.PeerId.{PeerId, id_eq}
use ceky_p2p.Nat.Relay.{
  NatError, default_config, active, RelaySession, RelayService, new_service, expired_ids,
  remove_all, cleanup_expired, opened_session, create_session, activated, activate_session,
  close_session, get_forward_addr, counted, relayed, record_relay, total_sessions,
}
use ceky_p2p.Nat.Relay.Sessions.{IsRelay}
use ceky_p2p.Nat.Relay.Service.{
  created, activation, relaying, Reachable, fresh, after, Reachable-IsRelay, Fate, Step-Fate,
}

abbrev rates : Float
rates = record {
  F64 = ℕ;
  of_nat = λ n. n;
  secs = λ n. n / 1_000_000_000;
  add = λ a b. a + b;
  sub = λ a b. a - b;
  mul = λ a b. a * b;
  div = λ a b. a / b;
  min = λ a b. min a b;
  max = λ a b. max a b;
  log2 = λ a. a;
  lt = λ a b. ltb a b;
  max_value = 1_000_000_000_000;
}

abbrev alice : PeerId
alice = replicate 32 1

abbrev bob : PeerId
bob = replicate 32 2

abbrev waiting : RelayService
waiting = (create_session (new_service default_config) alice 9001 bob 9002 5).0

abbrev or_waiting : Outcome NatError RelayService → RelayService
or_waiting (ok r) = r
or_waiting _ = waiting

abbrev running : RelayService
running = or_waiting (activate_session waiting 1 6)

abbrev used : RelayService
used = or_waiting (record_relay rates running 1 100 true 7)

activates : activate_session waiting 1 6 ≡ ok running
unfolding create_session opened_session activate_session activated
activates = refl

relays : record_relay rates running 1 100 true 7 ≡ ok used
unfolding create_session opened_session activate_session activated record_relay relayed counted
relays = refl

forwards : get_forward_addr used 1 bob ≡ some 9001
unfolding create_session opened_session activate_session activated record_relay relayed counted
    get_forward_addr id_eq
forwards = refl

cleans : total_sessions (cleanup_expired (close_session used 1) 8).0 ≡ 0
unfolding create_session opened_session activate_session activated record_relay relayed counted
    close_session cleanup_expired expired_ids remove_all
cleans = refl

running-Reachable : Reachable rates default_config running
running-Reachable = after (after fresh (created alice 9001 bob 9002 5)) (activation 1 6 activates)

used-Reachable : Reachable rates default_config used
used-Reachable = after running-Reachable (relaying 1 100 true 7 relays)

Reachable-IsRelay_example : IsRelay used
Reachable-IsRelay_example = Reachable-IsRelay rates used-Reachable

session_of : RelaySession
unfolding create_session opened_session activate_session activated
session_of = elim (lookup 1 running.sessions) [
  | some s ↦ s
  | none ↦ record {
    session_id = 0;
    peer_a = record { peer_id = []; addr = 0; bytes_sent = 0; bytes_received = 0 };
    peer_b = record { peer_id = []; addr = 0; bytes_sent = 0; bytes_received = 0 };
    created_at = 0;
    last_activity = 0;
    bytes_relayed = 0;
    state = active;
  }
]

session-held : lookup 1 running.sessions ≡ some session_of
unfolding session_of create_session opened_session activate_session activated
session-held = refl

running-IsMap : IsMap running.sessions
unfolding create_session opened_session activate_session activated
running-IsMap = (refl, tt)

session-free : 1 ≢ running.next_session_id
unfolding create_session opened_session activate_session activated
session-free = λ e. omega arith

Step-Fate_example : Fate rates used 1 session_of
Step-Fate_example =
    Step-Fate rates running used 1 session_of (relaying 1 100 true 7 relays)
      (Reachable-IsRelay rates running-Reachable) session-free session-held
