-- ===== src/Transport/Pool/Tests.antt =====
-- A pool of crates/ceky-transport/src/pool.rs with one connection that goes idle.
use ceky_p2p.Common.{◌≡◌, refl, [], ◌∷◌, none}
use ceky_p2p.Common.Outcome.{Outcome, ok, err}
use ceky_p2p.Transport.Connection.{
  ConnectionInfo, established, default_connection, new_connection, set_established,
}
use ceky_p2p.Transport.Pool.{
  TransportError, pool_full, ConnectionPool, new_pool, insert, remove, with_connection, remove_each,
  evict_idle,
}
use ceky_p2p.Transport.Pool.Steps.{
  inserted, written, idle_evicted, Reachable, empty, after, IsPool, Reachable-IsPool,
}

abbrev pool : ConnectionPool
pool = new_pool 1 default_connection

abbrev or_pool : Outcome TransportError ConnectionPool → ConnectionPool
or_pool (ok p) = p
or_pool _ = pool

abbrev one : ConnectionPool
one = or_pool (insert pool 9000 5)

one-new : insert pool 9000 5 ≡ ok one
unfolding insert new_connection
one-new = refl

one-full : insert one 9001 6 ≡ err (pool_full 1)
unfolding insert new_connection
one-full = refl

goes-idle : (evict_idle one 10 100).1 ≡ 9000 ∷ []
unfolding evict_idle insert new_connection remove remove_each
goes-idle = refl

abbrev last : ConnectionPool
last = (evict_idle (with_connection one 9000 (λ c. set_established c)) 10 100).0

last-Reachable : Reachable 1 default_connection last
last-Reachable =
    after (after (after empty (inserted 9000 5 one-new)) (written 9000 (λ c. set_established c)))
      (idle_evicted 10 100)

Reachable-IsPool_example : IsPool last
Reachable-IsPool_example = Reachable-IsPool last-Reachable

abbrev quiet : ConnectionInfo
quiet = record {
  peer_addr = 9000;
  state = established;
  connected_at = 0;
  last_recv = 0;
  last_send = 0;
  last_ping_sent = none;
  missed_heartbeats = 2;
  bytes_recv = 0;
  bytes_sent = 0;
  frames_recv = 0;
  frames_sent = 0;
  config = default_connection;
}
