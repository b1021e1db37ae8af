-- ===== src/Dht/Lookup.antt =====
-- The state machine of an iterative lookup, crates/ceky-dht/src/operations.rs. The hash set of the peers
-- asked is a list without repeats; an address is a number that the code only carries along.
pub mod Known
pub mod Covered
pub mod History
pub mod Queries
pub mod Converges
mod Tests
use ceky_p2p.Common.{
  ℕ, ◌+◌, ◌*◌, ◌%◌, ◌^◌, Bool, true, false, not, List, [], ◌∷◌, ◌++◌, if◌then◌else◌, length, take,
  any,
}
use ceky_p2p.Common.Sort.{sort_by}
use ceky_p2p.Crypto.PeerId.{PeerId, id_eq, xor_distance}
use ceky_p2p.Dht.KBucket.{k, retain}

abbrev pub alpha : ℕ
alpha = 3

pub record PeerEntry : Type 0 where
  pub peer_id : PeerId
  pub addr : ℕ
  pub distance : List ℕ

pub record FindNodeResult : Type 0 where
  pub closest : List PeerEntry
  pub hops : ℕ
  pub queried_count : ℕ

pub record IterativeLookup : Type 0 where
  pub target : PeerId
  pub known_peers : List PeerEntry
  pub queried : List PeerId
  pub round : ℕ
  pub converged : Bool

-- Whether a peer with the id is among the entries.
abbrev pub has_entry : PeerId → List PeerEntry → Bool
has_entry id ps = any (λ p. id_eq p.peer_id id) ps

-- `HashSet::contains` and `HashSet::insert`
abbrev pub contains : List PeerId → PeerId → Bool
contains ids id = any (λ i. id_eq i id) ids

unfoldable pub set_insert : PeerId → List PeerId → List PeerId
set_insert id ids = if contains ids id then ids else id ∷ ids

unfoldable pub add_peer : IterativeLookup → PeerEntry → IterativeLookup
unfolding sort_by
add_peer l peer =
    if has_entry peer.peer_id l.known_peers
    then l
    else let entry : PeerEntry = record {
      peer_id = peer.peer_id;
      addr = peer.addr;
      distance = xor_distance peer.peer_id l.target;
    } in
      record l {
        known_peers = take (k * 3) (sort_by (λ p. p.distance) (l.known_peers ++ (entry ∷ [])));
      }

unfoldable pub add_peers : IterativeLookup → List PeerEntry → IterativeLookup
unfolding add_peer
add_peers l [] = l
add_peers l (p ∷ ps) = add_peers (add_peer l p) ps

unfoldable pub new_lookup : PeerId → List PeerEntry → IterativeLookup
unfolding add_peers
new_lookup target seed_peers =
    add_peers
      (record { target = target; known_peers = []; queried = []; round = 0; converged = false })
      seed_peers

unfoldable pub mark_queried : List PeerEntry → List PeerId → List PeerId
unfolding set_insert
mark_queried [] ids = ids
mark_queried (p ∷ ps) ids = mark_queried ps (set_insert p.peer_id ids)

abbrev pub is_empty : List PeerEntry → Bool
is_empty [] = true
is_empty (p ∷ ps) = false

-- The peers to ask, and the lookup after.
unfoldable pub next_to_query : IterativeLookup → List PeerEntry × IterativeLookup
unfolding retain mark_queried
next_to_query l =
    let to_query = take alpha (retain (λ p. not (contains l.queried p.peer_id)) l.known_peers) in
    (
      to_query,
      record l {
        converged = if is_empty to_query then true else l.converged;
        queried = mark_queried to_query l.queried;
        round = (l.round + 1) % 2 ^ 64;
      },
    )

-- The comparison of the closest peers that ends it has no effect.
unfoldable pub process_responses : IterativeLookup → List PeerEntry → IterativeLookup
unfolding add_peers
process_responses l new_peers = add_peers l new_peers

abbrev pub is_complete : IterativeLookup → Bool
is_complete l = l.converged

unfoldable pub result : IterativeLookup → FindNodeResult
result l = record {
  closest = take k l.known_peers;
  hops = l.round;
  queried_count = length l.queried;
}
