-- ===== src/Dht/Routing/Change.antt =====
-- The operations of the routing table of crates/ceky-dht/src/routing.rs that take peers out or write to
-- them keep its invariant.
use ceky_p2p.Common.{
  ℕ, zero, suc, ◌+◌, ◌-◌, ◌^◌, ◌≤◌, ◌<◌, ◌≡◌, refl, sym, ◌∙◌, ap, arith, inl, inr, Option, none,
  some, List, [], ◌∷◌, length, length-replicate, set, replicate, get_elem?, Option-cases,
}
use ceky_p2p.Common.Outcome.{ok}
use ceky_p2p.Crypto.PeerId.{PeerId, IsPeerId, bucket_index}
use ceky_p2p.Common.Float.{Float}
use ceky_p2p.Dht.PeerInfo.{PeerInfo}
use ceky_p2p.Dht.KBucket.{at, retain, KBucket, new_bucket, modify}
use ceky_p2p.Dht.KBucket.Peers.{has}
use ceky_p2p.Dht.KBucket.Insert.{IsBucket}
use ceky_p2p.Dht.KBucket.Change.{
  Removed, remove_peer_lem, length-retain, retain-IsBucket, length-modify, modify-IsBucket,
}
use ceky_p2p.Dht.Routing.{
  num_buckets, RoutingTable, new_table, removed, remove, get_mut, alive, minus, evict_loop,
  evict_dead,
}
use ceky_p2p.Dht.Routing.Table.{
  AreBuckets, count, IsTable, set-IsTable, get_elem?-IsBucket, total_peers-bounds, total_peers-at,
}

module _ (float : Float) where
  new-AreBuckets :
      (local : PeerId) (i n now : ℕ)
      → AreBuckets float local i (replicate n (new_bucket float now))
        × (count float (replicate n (new_bucket float now)) ≡ 0)
  unfolding new_bucket IsBucket has
  new-AreBuckets local i zero now = (tt, refl)
  new-AreBuckets local i (suc n) now =
      let (bs, none_held) = new-AreBuckets local (suc i) n now in
      (((omega arith, tt, λ id e. cc), bs), omega (arith, none_held))

  -- A new table has the invariant.
  pub new_table-IsTable : (local : PeerId) (now : ℕ) → IsTable float (new_table float local now)
  unfolding new_table IsTable
  new_table-IsTable local now =
      let (bs, none_held) = new-AreBuckets local 0 num_buckets now in
      (length-replicate num_buckets (new_bucket float now), bs, sym none_held)

  -- What `remove` gives back, and that the total counts it.
  pub Gone : RoutingTable float → PeerId → RoutingTable float × Option (PeerInfo float) → Type 0
  Gone t id (u, none) = u ≡ t
  Gone t id (u, some p) = (p.peer_id ≡ id) × (suc u.total_peers ≡ t.total_peers)

  removed_lem :
      (t : RoutingTable float) (id : PeerId) (i : ℕ) (b : KBucket float)
      (r : KBucket float × Option (PeerInfo float))
      → IsTable float t
      → get_elem? t.buckets i ≡ some b
      → IsBucket float (λ other. bucket_index t.local_id other ≡ some i) r.0
      → Removed float b id r
      → IsTable float (removed float t i r).0 × Gone t id (removed float t i r)
  unfolding removed Gone Removed
  removed_lem t id i b (c, none) inv g v h = (inv, refl)
  removed_lem t id i b (c, some p) inv g v h =
      let room = total_peers-bounds float t inv in
      let held : 0 < t.total_peers = omega (arith, total_peers-at float t i b inv g, h.1) in
      let less : suc (minus float t.total_peers 1) ≡ t.total_peers = omega arith in
      (
        set-IsTable float t i (minus float t.total_peers 1) b c inv g v (omega (arith, h.1, less)),
        (h.0, less),
      )

  -- `remove` does not panic and keeps the invariant; the peer it gives back has the id, and the total
  -- falls by one.
  pub remove-IsTable :
      (t : RoutingTable float) (id : PeerId)
      → IsTable float t
      → IsPeerId t.local_id
      → IsPeerId id
      → (r : RoutingTable float × Option (PeerInfo float)) × (remove float t id ≡ ok r)
        × IsTable float r.0
        × Gone t id r
  unfolding remove Gone
  remove-IsTable t id inv hl hi = elim (Option-cases (bucket_index t.local_id id)) [
    | inl nowhere ↦ ((t, none), rw (remove, nowhere), inv, refl)
    | inr (i, e) ↦
        let (b, g, v) = get_elem?-IsBucket float t id i inv hl hi e in
        let (r, came, kept, post) =
          remove_peer_lem float (λ other. bucket_index t.local_id other ≡ some i) b id v in
        let (kept', gone) = removed_lem t id i b r inv g kept post in
        (removed float t i r, rw (remove, e, at, g, came), kept', gone)
  ]

  -- A write to one peer that leaves its id alone keeps the invariant and the number of peers.
  pub get_mut-IsTable :
      (f : PeerInfo float → PeerInfo float) (t : RoutingTable float) (id : PeerId)
      → ((p : PeerInfo float) → (f p).peer_id ≡ p.peer_id)
      → IsTable float t
      → IsPeerId t.local_id
      → IsPeerId id
      → (u : RoutingTable float) × (get_mut float t id f ≡ ok u)
        × IsTable float u
        × (u.total_peers ≡ t.total_peers)
  unfolding get_mut
  get_mut-IsTable f t id same inv hl hi = elim (Option-cases (bucket_index t.local_id id)) [
    | inl nowhere ↦ (t, rw (get_mut, nowhere), inv, refl)
    | inr (i, e) ↦
        let (b, g, v) = get_elem?-IsBucket float t id i inv hl hi e in
        let c = record b { peers = modify float id f b.peers } in
        (
          record t { buckets = set t.buckets i c },
          rw (get_mut, e, at, g),
          set-IsTable float t i t.total_peers b c inv g
              (modify-IsBucket float f same (λ other. bucket_index t.local_id other ≡ some i) id b
                v)
              (omega (arith, length-modify float f same id b.peers)),
          refl,
        )
  ]

  evict_loop_lem :
      (local : PeerId) (i : ℕ) (bs : List (KBucket float)) (n total : ℕ)
      → AreBuckets float local i bs
      → count float bs ≤ total
      → total < 2 ^ 64
      → let r = evict_loop float bs n total in
        (length r.0 ≡ length bs)
        × AreBuckets float local i r.0
        × (r.1 + count float r.0 ≡ n + count float bs)
        × (r.2 + count float bs ≡ total + count float r.0)
  unfolding evict_loop
  evict_loop_lem local i [] n total h le lt = (refl, tt, refl, refl)
  evict_loop_lem local i (b ∷ bs) n total h le lt =
      let few = length-retain float (alive float) b.peers in
      let gone = length b.peers - length (retain (alive float) b.peers) in
      let total' = minus float total gone in
      let (len, bk, cnt, tot) =
        evict_loop_lem local (suc i) bs (n + gone) total' h.1 (omega arith) (omega arith) in
      (
        ap suc len,
        (retain-IsBucket float (λ id. bucket_index local id ≡ some i) (alive float) b h.0, bk),
        omega (arith, cnt, few),
        omega (arith, tot, few),
      )

  -- `evict_dead` keeps the invariant, and its answer is the number by which the total falls.
  pub evict_dead-IsTable :
      (t : RoutingTable float)
      → IsTable float t
      → IsTable float (evict_dead float t).0
        × ((evict_dead float t).0.total_peers + (evict_dead float t).1 ≡ t.total_peers)
  unfolding evict_dead IsTable
  evict_dead-IsTable t inv =
      let room = total_peers-bounds float t inv in
      let (len, bk, cnt, tot) =
        evict_loop_lem t.local_id 0 t.buckets 0 t.total_peers inv.1 (omega (arith, inv.2))
          (omega (arith, room)) in
      ((len ∙ inv.0, bk, omega (arith, tot, inv.2)), omega (arith, tot, cnt, inv.2))
