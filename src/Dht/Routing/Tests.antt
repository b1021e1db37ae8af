-- ===== src/Dht/Routing/Tests.antt =====
-- A small routing table of crates/ceky-dht/src/routing.rs, with natural numbers for scores.
use ceky_p2p.Common.{
  ℕ, ◌+◌, ◌-◌, ◌*◌, ◌/◌, ◌≡◌, refl, arith, min, max, Bool, true, List, [], ◌∷◌, ◌++◌, map, ltb,
  replicate, length, All,
}
use mathlib.Core.List.{Perm, flat_map}
use ceky_p2p.Common.Sort.{sort_by, insert_by, bytes_le, IsSorted, Above}
use ceky_p2p.Common.Outcome.{Outcome, ok}
use ceky_p2p.Crypto.PeerId.{
  PeerId, IsPeerId, id_eq, bucket_index, first_set, leading_zeros, xor_distance,
}
use ceky_p2p.Common.Float.{Float}
use ceky_p2p.Dht.PeerInfo.{PeerInfo, new_peer, is_usable}
use ceky_p2p.Dht.KBucket.{KBucket, remove_at, updated, retain, position, insert_or_update}
use ceky_p2p.Dht.KBucket.Insert.{IsBucket, Kept, Post, insert_or_update_lem}
use ceky_p2p.Dht.KBucket.Peers.{has}
use ceky_p2p.Dht.Routing.{
  DhtError, RoutingTable, new_table, inserted, insert, active_peers, all_peers, find_closest,
  stale_buckets, stale_from,
}
use ceky_p2p.Dht.Routing.Table.{IsTable, Inserted, insert-IsTable}
use ceky_p2p.Dht.Routing.Change.{new_table-IsTable}
use ceky_p2p.Dht.Routing.History.{Step, Reachable, Reachable-IsTable}
use ceky_p2p.Dht.Routing.Closest.{distance_to, find_closest_lem}

abbrev pub scores : Float
scores = record {
  F64 = ℕ;
  of_nat = λ n. n;
  secs = λ n. n / 1_000_000_000;
  add = λ a b. a + b;
  sub = λ a b. a - b;
  mul = λ a b. a * b;
  div = λ a b. a / b;
  min = λ a b. min a b;
  max = λ a b. max a b;
  log2 = λ a. a;
  lt = λ a b. ltb a b;
  max_value = 1_000_000_000_000;
}

abbrev pub local : PeerId
local = replicate 32 0

abbrev pub near : PeerId
near = replicate 31 0 ++ (1 ∷ [])

abbrev far : PeerId
far = 128 ∷ replicate 31 0

pub local-IsPeerId : IsPeerId local
local-IsPeerId = ground arith

near-IsPeerId : IsPeerId near
near-IsPeerId = ground arith

abbrev empty_table : RoutingTable scores
empty_table = new_table scores local 5

empty_table-IsTable : IsTable scores empty_table
empty_table-IsTable = new_table-IsTable scores local 5

abbrev bucket : KBucket scores
bucket = record {
  peers = new_peer scores near 1 0 ∷ new_peer scores far 2 0 ∷ [];
  last_refresh = 5;
}

bucket-IsBucket : IsBucket scores (λ id. Unit {0}) bucket
unfolding IsBucket has new_peer id_eq
bucket-IsBucket = (omega arith, (refl, (refl, tt)), λ id h. tt)

-- The peer is known by an older address.
abbrev peer : PeerInfo scores
peer = new_peer scores near 9000 6

moved_last :
    insert_or_update scores bucket peer 6
    ≡ ok (
      record bucket {
        peers =
            new_peer scores far 2 0
            ∷ record (new_peer scores near 1 0) { addr = 9000; last_seen = 6 }
            ∷ [];
      },
      updated,
    )
unfolding insert_or_update position id_eq new_peer remove_at
moved_last = refl

insert_or_update_lem_example :
    Kept scores (λ id. Unit {0}) (insert_or_update scores bucket peer 6)
    × Post scores bucket peer 6 (insert_or_update scores bucket peer 6)
insert_or_update_lem_example =
    insert_or_update_lem scores (λ id. Unit {0}) bucket peer 6 bucket-IsBucket tt

-- The table with one peer, which is suspect after.
abbrev answer : Outcome DhtError (RoutingTable scores × Bool) → RoutingTable scores
answer (ok (t, fresh)) = t
answer _ = empty_table

abbrev pub stocked : RoutingTable scores
stocked = answer (insert scores empty_table near 9000 6)

stocked-total_peers : stocked.total_peers ≡ 1
unfolding insert new_table inserted bucket_index first_set leading_zeros xor_distance id_eq
    insert_or_update position
stocked-total_peers = refl

empty-local : empty_table.local_id ≡ local
unfolding new_table
empty-local = refl

pub stocked-IsTable : IsTable scores stocked × (stocked.local_id ≡ local)
unfolding insert new_table inserted bucket_index first_set leading_zeros xor_distance id_eq
    insert_or_update position Inserted
stocked-IsTable =
    let h =
      insert-IsTable scores empty_table near 9000 6 empty_table-IsTable local-IsPeerId
        near-IsPeerId in
    (h.0, refl)

pub stocked-IsPeerId : IsPeerId stocked.local_id
stocked-IsPeerId = rw (stocked-IsTable.1) local-IsPeerId

-- The bucket of the one peer is stale a day later.
stale_later : stale_buckets scores stocked 3_600_000_000_000 86_400_000_000_000 ≡ 248 ∷ []
unfolding stale_buckets stale_from insert new_table inserted bucket_index first_set leading_zeros
    xor_distance id_eq insert_or_update position
stale_later = refl

-- A table whose bucket 248 holds the near peer and whose bucket 7 holds the far one.
abbrev table : RoutingTable scores
table = record {
  local_id = local;
  buckets =
      record { peers = new_peer scores far 1 0 ∷ []; last_refresh = 0 }
      ∷ record { peers = new_peer scores near 2 0 ∷ []; last_refresh = 0 }
      ∷ [];
  total_peers = 2;
}

closest_first : map (λ p. p.addr) (find_closest scores table local 1) ≡ 2 ∷ []
unfolding find_closest all_peers retain sort_by insert_by bytes_le xor_distance new_peer flat_map
closest_first = refl

find_closest_lem_example :
    (others : List (PeerInfo scores)) × Perm
      (find_closest scores table local 1 ++ others)
      (active_peers scores table)
    × IsSorted (distance_to scores local) (find_closest scores table local 1)
    × All (λ p. is_usable scores p ≡ true) (find_closest scores table local 1)
    × All
        (λ p. Above (distance_to scores local) (distance_to scores local p) others)
        (find_closest scores table local 1)
    × (length (find_closest scores table local 1) ≡ min 1 (length (active_peers scores table)))
find_closest_lem_example = find_closest_lem scores table local 1

stocked_inserted : insert scores empty_table near 9000 6 ≡ ok (stocked, true)
unfolding insert new_table inserted bucket_index first_set leading_zeros xor_distance id_eq
    insert_or_update position
stocked_inserted = refl

Reachable-IsTable_example : IsTable scores stocked × (stocked.local_id ≡ local)
Reachable-IsTable_example = Reachable-IsTable scores local-IsPeerId (
    Reachable.stepped (Reachable.created 5)
      (Step.inserting near 9000 6 near-IsPeerId stocked_inserted))
