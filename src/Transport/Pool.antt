-- ===== src/Transport/Pool.antt =====
-- crates/ceky-transport/src/pool.rs, one call at a time. The concurrent map is a list of its entries, an
-- address is a number, and the order in which the map is walked is that of the list.
pub mod Steps
mod Tests
use ceky_p2p.Common.{
  ℕ, ◌+◌, ◌-◌, ◌%◌, ◌^◌, Bool, true, false, Option, none, some, List, [], ◌∷◌, ltb, leb,
  if◌then◌else◌, length, map,
}
use ceky_p2p.Common.Outcome.{Outcome, ok, err}
use ceky_p2p.Common.Maps.{lookup, assign, erase, has_key}
use ceky_p2p.Transport.Connection.{
  ConnectionConfig, default_connection, ConnectionInfo, new_connection, is_established,
  should_send_ping, is_dead, idle_time,
}

-- The error's texts are left out.
pub data TransportError : Type 0 where
  io_error protocol_error send_failed : TransportError
  connection_closed pool_full peer_not_found timed_out : ℕ → TransportError

pub record ConnectionPool : Type 0 where
  pub connections : List (ℕ × ConnectionInfo)
  pub max_connections : ℕ
  pub default_config : ConnectionConfig
  pub total_created : ℕ
  pub total_removed : ℕ

abbrev pub new_pool : ℕ → ConnectionConfig → ConnectionPool
new_pool max_connections default_config = record {
  connections = [];
  max_connections = max_connections;
  default_config = default_config;
  total_created = 0;
  total_removed = 0;
}

unfoldable pub insert : ConnectionPool → ℕ → ℕ → Outcome TransportError ConnectionPool
insert p peer_addr now =
    if leb p.max_connections (length p.connections)
    then err (pool_full p.max_connections)
    else elim (lookup peer_addr p.connections) [
      | some c ↦ ok p
      | none ↦ ok (record p {
        connections =
            assign peer_addr (new_connection peer_addr p.default_config now) p.connections;
        total_created = (p.total_created + 1) % 2 ^ 64;
      })
    ]

unfoldable pub remove : ConnectionPool → ℕ → ConnectionPool × Option ConnectionInfo
remove p peer_addr = elim (lookup peer_addr p.connections) [
  | none ↦ (p, none)
  | some c ↦ (
    record p {
      connections = erase peer_addr p.connections;
      total_removed = (p.total_removed + 1) % 2 ^ 64;
    },
    some c,
  )
]

-- `with_connection`, with the connection that the closure leaves.
unfoldable pub with_connection :
    ConnectionPool → ℕ → (ConnectionInfo → ConnectionInfo) → ConnectionPool
with_connection p peer_addr f = elim (lookup peer_addr p.connections) [
  | none ↦ p
  | some c ↦ record p { connections = assign peer_addr (f c) p.connections }
]

-- The addresses of the connections that pass a test.
abbrev pub addrs_where : (ConnectionInfo → Bool) → List (ℕ × ConnectionInfo) → List ℕ
addrs_where q [] = []
addrs_where q (e ∷ es) = if q e.1 then e.0 ∷ addrs_where q es else addrs_where q es

abbrev pub peer_addrs : ConnectionPool → List ℕ
peer_addrs p = map (λ e. e.0) p.connections

abbrev pub established_peers : ConnectionPool → List ℕ
established_peers p = addrs_where (λ c. is_established c.state) p.connections

abbrev pub peers_needing_ping : ConnectionPool → ℕ → List ℕ
peers_needing_ping p now = addrs_where (λ c. should_send_ping c now) p.connections

abbrev pub dead_peers : ConnectionPool → ℕ → List ℕ
dead_peers p now = addrs_where (λ c. is_dead c now) p.connections

unfoldable pub remove_each : List ℕ → ConnectionPool → ConnectionPool
unfolding remove
remove_each [] p = p
remove_each (a ∷ as_) p = remove_each as_ (remove p a).0

unfoldable pub evict_idle : ConnectionPool → ℕ → ℕ → ConnectionPool × List ℕ
unfolding remove_each
evict_idle p max_idle now =
    let idle_peers = addrs_where (λ c. ltb max_idle (idle_time c now)) p.connections in
    (remove_each idle_peers p, idle_peers)

unfoldable pub evict_dead : ConnectionPool → ℕ → ConnectionPool × List ℕ
unfolding remove_each
evict_dead p now = let dead = dead_peers p now in (remove_each dead p, dead)
