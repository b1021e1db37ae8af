-- ===== src/Dht/Routing/Table.antt =====
-- The invariant of the routing table of crates/ceky-dht/src/routing.rs: each peer in the bucket of its
-- distance, none twice, at most k in a bucket, and `total_peers` their number.
use ceky_p2p.Common.{
  ℕ, zero, suc, ◌+◌, ◌*◌, ◌%◌, ◌^◌, ◌≤◌, ◌<◌, ◌≡◌, refl, sym, ◌∙◌, ap, arith, Bool, true, false,
  subst, ◌⊎◌, inl, inr, Option, none, some, List, [], ◌∷◌, length, length-set, set, get_elem?,
  Bool-cases, Option-cases,
}
use ceky_p2p.Common.Outcome.{Outcome, ok, err, panic}
use ceky_p2p.Crypto.PeerId.{PeerId, IsPeerId, id_eq, bucket_index}
use ceky_p2p.Crypto.PeerId.Distance.{bucket_index-bounds, bucket_index-none_iff}
use ceky_p2p.Common.Float.{Float}
use ceky_p2p.Dht.PeerInfo.{PeerInfo, new_peer}
use ceky_p2p.Dht.KBucket.{
  k, InsertOutcome, new_peer_added, updated, evicted, at, KBucket, insert_or_update,
}
use ceky_p2p.Dht.KBucket.Peers.{id_eq_iff}
use ceky_p2p.Dht.KBucket.Insert.{IsBucket, Post, Kept, insert_or_update_lem}
use ceky_p2p.Dht.Routing.{num_buckets, DhtError, bucket_full, RoutingTable, inserted, insert}

module _ (float : Float) where
  -- The buckets from number i on hold the peers that belong there.
  abbrev pub AreBuckets : PeerId → ℕ → List (KBucket float) → Type 0
  AreBuckets local i [] = Unit {0}
  AreBuckets local i (b ∷ bs) =
      IsBucket float (λ id. bucket_index local id ≡ some i) b × AreBuckets local (suc i) bs

  -- The number of peers in the buckets.
  abbrev pub count : List (KBucket float) → ℕ
  count [] = 0
  count (b ∷ bs) = length b.peers + count bs

  unfoldable pub IsTable : RoutingTable float → Type 0
  IsTable t =
      (length t.buckets ≡ num_buckets)
      × AreBuckets t.local_id 0 t.buckets
      × (t.total_peers ≡ count t.buckets)

  AreBuckets-at :
      (local : PeerId) (i j : ℕ) (bs : List (KBucket float))
      → AreBuckets local i bs
      → j < length bs
      → (b : KBucket float) × (get_elem? bs j ≡ some b)
        × IsBucket float (λ id. bucket_index local id ≡ some (i + j)) b
  AreBuckets-at local i j [] h lt = absurd (omega arith)
  AreBuckets-at local i zero (b ∷ bs) h lt = (
    b,
    refl,
    subst (λ (n : ℕ). IsBucket float (λ id. bucket_index local id ≡ some n) b) (omega arith) h.0,
  )
  AreBuckets-at local i (suc j) (b ∷ bs) h lt =
      let (c, e, v) = AreBuckets-at local (suc i) j bs h.1 (omega arith) in
      (
        c,
        e,
        subst (λ (n : ℕ). IsBucket float (λ id. bucket_index local id ≡ some n) c) (omega arith) v,
      )

  AreBuckets-set :
      (local : PeerId) (i j : ℕ) (bs : List (KBucket float)) (b : KBucket float)
      → AreBuckets local i bs
      → IsBucket float (λ id. bucket_index local id ≡ some (i + j)) b
      → AreBuckets local i (set bs j b)
  AreBuckets-set local i j [] b h v = h
  AreBuckets-set local i zero (c ∷ bs) b h v = (
    subst (λ (n : ℕ). IsBucket float (λ id. bucket_index local id ≡ some n) b) (omega arith) v,
    h.1,
  )
  AreBuckets-set local i (suc j) (c ∷ bs) b h v = (
    h.0,
    AreBuckets-set local (suc i) j bs b h.1 (
        subst (λ (n : ℕ). IsBucket float (λ id. bucket_index local id ≡ some n) b) (omega arith) v),
  )

  count-set :
      (bs : List (KBucket float)) (j : ℕ) (b c : KBucket float)
      → get_elem? bs j ≡ some b
      → count (set bs j c) + length b.peers ≡ count bs + length c.peers
  count-set [] j b c g = cc
  count-set (x ∷ bs) zero b c g =
      let same : length x.peers ≡ length b.peers =
        ap (λ (o : Option (KBucket float)). elim o [ none ↦ 0 | some y ↦ length y.peers ]) g in
      omega (arith, same)
  count-set (x ∷ bs) (suc j) b c g = omega (arith, count-set bs j b c g)

  count-bounds :
      (local : PeerId) (i : ℕ) (bs : List (KBucket float))
      → AreBuckets local i bs
      → count bs ≤ k * length bs
  unfolding IsBucket
  count-bounds local i [] h = omega arith
  count-bounds local i (b ∷ bs) h = omega (arith, count-bounds local (suc i) bs h.1, h.0.0)

  -- Another bucket in the place of one, and the total that goes with it.
  pub set-IsTable :
      (t : RoutingTable float) (i n : ℕ) (b c : KBucket float)
      → IsTable t
      → get_elem? t.buckets i ≡ some b
      → IsBucket float (λ id. bucket_index t.local_id id ≡ some i) c
      → n + length b.peers ≡ t.total_peers + length c.peers
      → IsTable (record t { buckets = set t.buckets i c; total_peers = n })
  unfolding IsTable
  set-IsTable t i n b c inv g v total = (
    length-set t.buckets i c ∙ inv.0,
    AreBuckets-set t.local_id 0 i t.buckets c inv.1 (
        subst (λ (m : ℕ). IsBucket float (λ id. bucket_index t.local_id id ≡ some m) c)
          (omega arith) v),
    omega (arith, total, count-set t.buckets i b c g, inv.2),
  )

  pub get_elem?-IsBucket :
      (t : RoutingTable float) (id : PeerId) (i : ℕ)
      → IsTable t
      → IsPeerId t.local_id
      → IsPeerId id
      → bucket_index t.local_id id ≡ some i
      → (b : KBucket float) × (get_elem? t.buckets i ≡ some b)
        × IsBucket float (λ other. bucket_index t.local_id other ≡ some i) b
  unfolding IsTable
  get_elem?-IsBucket t id i inv hl hi e =
      let (b, g, v) =
        AreBuckets-at t.local_id 0 i t.buckets inv.1
          (omega (arith, inv.0, (bucket_index-bounds t.local_id id i hl hi e).0)) in
      (
        b,
        g,
        subst (λ (m : ℕ). IsBucket float (λ other. bucket_index t.local_id other ≡ some m) b)
            (omega arith) v,
      )

  pub total_peers-bounds : (t : RoutingTable float) → IsTable t → t.total_peers ≤ 5120
  unfolding IsTable
  total_peers-bounds t inv = omega (arith, count-bounds t.local_id 0 t.buckets inv.1, inv.0, inv.2)

  count-at :
      (bs : List (KBucket float)) (j : ℕ) (b : KBucket float)
      → get_elem? bs j ≡ some b
      → length b.peers ≤ count bs
  count-at bs j b g = omega (arith, count-set bs j b (record b { peers = [] }) g)

  pub total_peers-at :
      (t : RoutingTable float) (j : ℕ) (b : KBucket float)
      → IsTable t
      → get_elem? t.buckets j ≡ some b
      → length b.peers ≤ t.total_peers
  unfolding IsTable
  total_peers-at t j b inv g = omega (arith, count-at t.buckets j b g, inv.2)

  -- What `insert` may answer.
  unfoldable pub Inserted :
      RoutingTable float → PeerId → Outcome DhtError (RoutingTable float × Bool) → Type 0
  Inserted t id (ok (u, true)) =
      IsTable u
      × (u.local_id ≡ t.local_id)
      × ((u.total_peers ≡ t.total_peers + 1) ⊎ (u.total_peers ≡ t.total_peers))
  Inserted t id (ok (u, false)) =
      IsTable u × (u.local_id ≡ t.local_id) × (u.total_peers ≡ t.total_peers)
  Inserted t id (err (bucket_full i)) = bucket_index t.local_id id ≡ some i
  Inserted t id (err _) = ⊥
  Inserted t id panic = ⊥

  inserted-Inserted :
      (t : RoutingTable float) (id : PeerId) (i : ℕ) (b : KBucket float) (peer : PeerInfo float)
      (r : Outcome (Unit {0}) (KBucket float × InsertOutcome))
      → IsTable t
      → bucket_index t.local_id id ≡ some i
      → get_elem? t.buckets i ≡ some b
      → Kept float (λ other. bucket_index t.local_id other ≡ some i) r
      → (now : ℕ) → Post float b peer now r
      → Inserted t id (inserted float t i r)
  unfolding inserted Inserted Kept Post
  inserted-Inserted t id i b peer (ok (c, new_peer_added)) inv e g v now post =
      let room = total_peers-bounds t inv in
      (
        set-IsTable t i ((t.total_peers + 1) % 2 ^ 64) b c inv g v (omega (arith, post.1)),
        refl,
        inl (omega arith),
      )
  inserted-Inserted t id i b peer (ok (c, updated)) inv e g v now post =
      (set-IsTable t i t.total_peers b c inv g v (omega (arith, post.1)), refl, refl)
  inserted-Inserted t id i b peer (ok (c, evicted)) inv e g v now post =
      (set-IsTable t i t.total_peers b c inv g v (omega (arith, post.1, post.2)), refl, inr refl)
  inserted-Inserted t id i b peer (err u) inv e g v now post = e
  inserted-Inserted t id i b peer panic inv e g v now post = absurd v

  -- In a table with the invariant, and for ids of 32 bytes, `insert` does not panic, has a bucket for
  -- every peer but the local one, and keeps the invariant and the local id; the total stays as it was or,
  -- for a peer that is new, may grow by one.
  pub insert-IsTable :
      (t : RoutingTable float) (id : PeerId) (addr now : ℕ)
      → IsTable t
      → IsPeerId t.local_id
      → IsPeerId id
      → Inserted t id (insert float t id addr now)
  unfolding insert Inserted
  insert-IsTable t id addr now inv hl hi = elim (Bool-cases (id_eq id t.local_id)) [
    | inl own ↦ rw own (inv, refl, refl)
    | inr other ↦ elim (Option-cases (bucket_index t.local_id id)) [
      | inl none_found ↦ cc (
        other,
        (id_eq_iff id t.local_id).1
            (sym ((bucket_index-none_iff t.local_id id hl hi).0 none_found)),
      )
      | inr (i, e) ↦
          let (b, g, v) = get_elem?-IsBucket t id i inv hl hi e in
          let peer = new_peer float id addr now in
          let (kept, post) =
            insert_or_update_lem float (λ x. bucket_index t.local_id x ≡ some i) b peer now v e in
          rw (other, e, at, g)
            (inserted-Inserted t id i b peer (insert_or_update float b peer now) inv e g kept now
              post)
    ]
  ]
