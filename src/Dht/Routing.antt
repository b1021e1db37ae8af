-- ===== src/Dht/Routing.antt =====
-- The routing table of crates/ceky-dht/src/routing.rs: 256 k-buckets by the highest bit of the XOR
-- distance. An error leaves the table as it was; a call that reads the clock takes the time.
pub mod Table
pub mod Change
pub mod Closest
pub mod History
pub mod Tests
use ceky_p2p.Common.{
  ℕ, ◌+◌, ◌-◌, ◌%◌, ◌^◌, Bool, true, false, not, ◌&&◌, Option, none, some, List, [], ◌∷◌, ltb, ◌==◌,
  if◌then◌else◌, length, set, take, replicate,
}
use mathlib.Core.List.{flat_map}
use ceky_p2p.Common.Outcome.{Outcome, ok, err, panic, ◌>>=◌}
use ceky_p2p.Common.Sort.{sort_by}
use ceky_p2p.Crypto.PeerId.{PeerId, id_eq, xor_distance, bucket_index}
use ceky_p2p.Common.Float.{Float}
use ceky_p2p.Dht.PeerInfo.{
  PeerState, dead, PeerInfo, new_peer, is_usable, mark_active as peer_mark_active,
  mark_suspect as peer_mark_suspect,
}
use ceky_p2p.Dht.KBucket.{
  InsertOutcome, new_peer_added, updated, evicted, at, retain, KBucket, new_bucket, find_peer,
  insert_or_update, remove_peer, modify,
}

abbrev pub num_buckets : ℕ
num_buckets = 256

-- The texts of the reasons are left out.
pub data DhtError : Type 0 where
  bucket_full : ℕ → DhtError
  peer_not_found lookup_failed store_failed invalid_key : DhtError

module _ (float : Float) where
  pub record RoutingTable : Type 0 where
    pub local_id : PeerId
    pub buckets : List (KBucket float)
    pub total_peers : ℕ

  pub new_table : PeerId → ℕ → RoutingTable
  unfolding new_bucket
  new_table local_id now = record {
    local_id = local_id;
    buckets = replicate num_buckets (new_bucket float now);
    total_peers = 0;
  }

  -- `usize` addition and subtraction wrap.
  abbrev minus : ℕ → ℕ → ℕ
  minus a b = (a + 2 ^ 64 - b) % 2 ^ 64

  -- What the table makes of the bucket's answer.
  unfoldable pub inserted :
      RoutingTable
      → ℕ
      → Outcome (Unit {0}) (KBucket float × InsertOutcome)
      → Outcome DhtError (RoutingTable × Bool)
  inserted t i (ok (b, new_peer_added)) =
      ok
        (record t { buckets = set t.buckets i b; total_peers = (t.total_peers + 1) % 2 ^ 64 }, true)
  inserted t i (ok (b, evicted)) = ok (record t { buckets = set t.buckets i b }, true)
  inserted t i (ok (b, updated)) = ok (record t { buckets = set t.buckets i b }, false)
  inserted t i (err e) = err (bucket_full i)
  inserted t i panic = panic

  pub insert : RoutingTable → PeerId → ℕ → ℕ → Outcome DhtError (RoutingTable × Bool)
  unfolding inserted new_peer
  insert t peer_id addr now =
      if id_eq peer_id t.local_id then ok (t, false) else elim (bucket_index t.local_id peer_id) [
        | none ↦ err invalid_key
        | some i ↦ do
          b ← at t.buckets i
          inserted t i (insert_or_update float b (new_peer float peer_id addr now) now)
      ]

  unfoldable pub removed :
      RoutingTable
      → ℕ
      → KBucket float × Option (PeerInfo float)
      → RoutingTable × Option (PeerInfo float)
  removed t i (b, some p) =
      (record t { buckets = set t.buckets i b; total_peers = minus t.total_peers 1 }, some p)
  removed t i (b, none) = (t, none)

  pub remove : RoutingTable → PeerId → Outcome (Unit {0}) (RoutingTable × Option (PeerInfo float))
  unfolding removed
  remove t id = elim (bucket_index t.local_id id) [
    | none ↦ ok (t, none)
    | some i ↦ do b ← at t.buckets i; r ← remove_peer float b id; ok (removed t i r)
  ]

  pub get : RoutingTable → PeerId → Outcome (Unit {0}) (Option (PeerInfo float))
  unfolding find_peer
  get t id = elim (bucket_index t.local_id id) [
    | none ↦ ok none
    | some i ↦ do b ← at t.buckets i; ok (find_peer float id b.peers)
  ]

  pub get_mut :
      RoutingTable → PeerId → (PeerInfo float → PeerInfo float) → Outcome (Unit {0}) RoutingTable
  unfolding modify
  get_mut t id f = elim (bucket_index t.local_id id) [
    | none ↦ ok t
    | some i ↦ do
      b ← at t.buckets i
      ok (record t { buckets = set t.buckets i (record b { peers = modify float id f b.peers }) })
  ]

  pub mark_active : RoutingTable → PeerId → ℕ → ℕ → Outcome (Unit {0}) RoutingTable
  unfolding get_mut
  mark_active t id latency now = get_mut t id (λ p. peer_mark_active float p latency now)

  pub mark_suspect : RoutingTable → PeerId → ℕ → Outcome (Unit {0}) RoutingTable
  unfolding get_mut
  mark_suspect t id now = get_mut t id (λ p. peer_mark_suspect float p now)

  -- Whether a peer stays when the dead ones go.
  abbrev alive : PeerInfo float → Bool
  alive p = elim p.state [ dead ↦ false | _ ↦ true ]

  -- The loop of `evict_dead`: the buckets, the number evicted and the total.
  unfoldable pub evict_loop : List (KBucket float) → ℕ → ℕ → List (KBucket float) × ℕ × ℕ
  evict_loop [] count total = ([], count, total)
  evict_loop (b ∷ bs) count total =
      let peers = retain alive b.peers in
      let gone = length b.peers - length peers in
      let (rest, all, left) = evict_loop bs (count + gone) (minus total gone) in
      (record b { peers = peers } ∷ rest, all, left)

  pub evict_dead : RoutingTable → RoutingTable × ℕ
  unfolding evict_loop retain
  evict_dead t =
      let (buckets, count, total) = evict_loop t.buckets 0 t.total_peers in
      (record t { buckets = buckets; total_peers = total }, count)

  pub all_peers : RoutingTable → List (PeerInfo float)
  all_peers t = flat_map (λ b. b.peers) t.buckets

  pub active_peers : RoutingTable → List (PeerInfo float)
  unfolding all_peers retain
  active_peers t = retain (is_usable float) (all_peers t)

  -- The indices of the buckets from i on that were not refreshed for longer than max_age.
  unfoldable pub stale_from : ℕ → List (KBucket float) → ℕ → ℕ → List ℕ
  stale_from i [] max_age now = []
  stale_from i (b ∷ bs) max_age now =
      if not (length b.peers == 0) && ltb max_age (now - b.last_refresh)
      then i ∷ stale_from (i + 1) bs max_age now
      else stale_from (i + 1) bs max_age now

  unfoldable pub stale_buckets : RoutingTable → ℕ → ℕ → List ℕ
  unfolding stale_from
  stale_buckets t max_age now = stale_from 0 t.buckets max_age now

  -- The order is the derived one of the distances, byte by byte.
  pub find_closest : RoutingTable → PeerId → ℕ → List (PeerInfo float)
  unfolding retain all_peers
  find_closest t target count =
      take count
        (sort_by (λ p. xor_distance p.peer_id target) (retain (is_usable float) (all_peers t)))
