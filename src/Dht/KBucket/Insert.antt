-- ===== src/Dht/KBucket/Insert.antt =====
-- `KBucket::insert_or_update` and `KBucket::remove` of crates/ceky-dht/src/routing.rs, case by case, and
-- the invariant that they keep.
use ceky_p2p.Common.{
  ℕ, suc, ◌≤◌, ◌<◌, ◌≡◌, inl, inr, refl, sym, ◌∙◌, ap, arith, true, false, ◌||◌, none, some, List,
  [], ◌∷◌, ◌++◌, length, length-append, length-set, set, get_elem?, Bool-cases, Option-cases,
  le→leb, gt→leb,
}
use native.Mathlib.Decide.{dec_lt}
use ceky_p2p.Common.Outcome.{Outcome, ok, err, panic, ok-injective}
use ceky_p2p.Crypto.PeerId.{PeerId, id_eq}
use ceky_p2p.Common.Float.{Float}
use ceky_p2p.Dht.PeerInfo.{PeerInfo, touch}
use ceky_p2p.Dht.KBucket.{
  k, InsertOutcome, new_peer_added, updated, evicted, at, evictable, KBucket, position,
  find_eviction_candidate, insert_or_update,
}
use mathlib.Core.Option.{some-injective}
use ceky_p2p.Dht.KBucket.Peers.{
  id_eq_iff, has, Distinct, has-append, position-none, Distinct-snoc, remove_at_lem, Distinct-set,
  has-set, get_elem?-set, has-get_elem?, without, remove_at-rest, set-rest,
}
use ceky_p2p.Dht.KBucket.Candidate.{position-some, candidate_loop-Found}

module _ (float : Float) where
  -- At most k peers, none of them twice, and of each the id has the property.
  unfoldable pub IsBucket : (PeerId → Type 0) → KBucket float → Type 0
  IsBucket P b =
      (length b.peers ≤ k)
      × Distinct float b.peers
      × ((id : PeerId) → has float id b.peers ≡ true → P id)

  -- The bucket c has the peers and then the last one, and else it is b.
  abbrev pub IsMade :
      KBucket float → KBucket float → List (PeerInfo float) → PeerInfo float → Type 0
  IsMade b c peers last = (c.peers ≡ peers ++ (last ∷ [])) × (c.last_refresh ≡ b.last_refresh)

  -- What `insert_or_update` may answer for a peer: a new one comes last; one that is there moves to the
  -- end with the new address and time and is else as it was; and a new peer takes the place of a dead or
  -- suspect one, the candidate, only where the bucket is full.
  unfoldable pub Post :
      KBucket float
      → PeerInfo float
      → ℕ
      → Outcome (Unit {0}) (KBucket float × InsertOutcome)
      → Type 0
  Post b peer now (ok (c, new_peer_added)) =
      (has float peer.peer_id b.peers ≡ false)
      × (length c.peers ≡ suc (length b.peers))
      × ((id : PeerId) → has float id c.peers ≡ has float id b.peers || id_eq peer.peer_id id)
      × IsMade b c b.peers peer
  Post b peer now (ok (c, updated)) =
      (has float peer.peer_id b.peers ≡ true)
      × (length c.peers ≡ length b.peers)
      × ((id : PeerId) → has float id c.peers ≡ has float id b.peers)
      × (i : ℕ) × (old : PeerInfo float) × (get_elem? b.peers i ≡ some old)
      × (old.peer_id ≡ peer.peer_id)
      × IsMade b c (without float i b.peers) (record old { addr = peer.addr; last_seen = now })
  Post b peer now (ok (c, evicted)) =
      (has float peer.peer_id b.peers ≡ false)
      × (length c.peers ≡ k)
      × (length b.peers ≡ k)
      × (i : ℕ) × (p : PeerInfo float) × (find_eviction_candidate float b ≡ some i)
      × (get_elem? b.peers i ≡ some p)
      × (evictable p.state ≡ true)
      × (has float p.peer_id c.peers ≡ false)
      × ((id : PeerId)
          → has float id c.peers || id_eq p.peer_id id
            ≡ has float id b.peers || id_eq peer.peer_id id)
      × IsMade b c (without float i b.peers) peer
  Post b peer now (err e) =
      (has float peer.peer_id b.peers ≡ false)
      × (length b.peers ≡ k)
      × (find_eviction_candidate float b ≡ none)
  Post b peer now panic = ⊥

  updated_lem :
      (P : PeerId → Type 0) (b : KBucket float) (peer : PeerInfo float) (now idx : ℕ)
      → IsBucket P b
      → position float peer.peer_id b.peers ≡ some idx
      → (c : KBucket float) × (insert_or_update float b peer now ≡ ok (c, updated))
        × IsBucket P c
        × Post b peer now (ok (c, updated))
  unfolding insert_or_update IsBucket Post touch has
  updated_lem P b peer now idx inv found =
      let (old, lt, g, same) = position-some float peer.peer_id b.peers idx found in
      let q = touch float (record old { addr = peer.addr }) now in
      let ps = set b.peers idx q in
      let (p, rest, e, g', len, hs, ds) =
        remove_at_lem float {E = Unit {0}} idx ps (omega (arith, length-set b.peers idx q)) in
      let here : p ≡ q = some-injective p q (sym g' ∙ get_elem?-set float b.peers idx q lt) in
      let held : (id : PeerId) → has float id (rest ++ (p ∷ [])) ≡ has float id b.peers = λ id.
        ground (
          arith,
          has-append float id rest (p ∷ []),
          hs id,
          has-set float id b.peers idx old q g refl,
        ) in
      let left : rest ≡ without float idx b.peers =
        ap (λ x. x.1) (ok-injective (sym e ∙ remove_at-rest float {E = Unit {0}} idx ps p g'))
        ∙ set-rest float idx b.peers q in
      let size : length (rest ++ (p ∷ [])) ≡ length b.peers =
        omega (arith, length-append rest (p ∷ []), length-set b.peers idx q) in
      let d = ds (Distinct-set float b.peers idx old q g refl inv.1) in
      (
        record b { peers = rest ++ (p ∷ []) },
        rw (insert_or_update, found, at, g, e),
        (
          omega (arith, size),
          Distinct-snoc float rest p d.0 d.1,
          λ id h. inv.2 id (sym (held id) ∙ h),
        ),
        (
          ap (λ (x : PeerId). has float x b.peers) (sym same)
              ∙ has-get_elem? float b.peers idx old g,
          size,
          held,
          idx,
          old,
          g,
          same,
          (
            ap (λ (ps : List (PeerInfo float)). ps ++ (p ∷ [])) left
                ∙ ap (λ x. without float idx b.peers ++ (x ∷ [])) here,
            refl,
          ),
        ),
      )

  joined :
      (P : PeerId → Type 0) (b : KBucket float) (peer : PeerInfo float)
      → IsBucket P b
      → P peer.peer_id
      → (id : PeerId) → has float id b.peers || id_eq peer.peer_id id ≡ true
      → P id
  unfolding IsBucket
  joined P b peer inv hp id h = elim (Bool-cases (has float id b.peers)) [
    | inl old ↦ inv.2 id old
    | inr other ↦
        let same : peer.peer_id ≡ id = (id_eq_iff peer.peer_id id).0 (ground (arith, h, other)) in
        rw (← same) hp
  ]

  added_lem :
      (P : PeerId → Type 0) (b : KBucket float) (peer : PeerInfo float) (now : ℕ)
      → IsBucket P b
      → P peer.peer_id
      → length b.peers < k
      → position float peer.peer_id b.peers ≡ none
      → (c : KBucket float) × (insert_or_update float b peer now ≡ ok (c, new_peer_added))
        × IsBucket P c
        × Post b peer now (ok (c, new_peer_added))
  unfolding IsBucket Post has insert_or_update
  added_lem P b peer now inv hp room new =
      let absent = position-none float peer.peer_id b.peers new in
      let held : (id : PeerId)
          → has float id (b.peers ++ (peer ∷ [])) ≡ has float id b.peers || id_eq peer.peer_id id =
        λ id. ground (arith, has-append float id b.peers (peer ∷ [])) in
      let size = length-append b.peers (peer ∷ []) in
      (
        record b { peers = b.peers ++ (peer ∷ []) },
        rw (insert_or_update, new, gt→leb k (length b.peers) room),
        (
          omega (arith, size),
          Distinct-snoc float b.peers peer inv.1 absent,
          λ id h. joined P b peer inv hp id (sym (held id) ∙ h),
        ),
        (absent, omega (arith, size), held, (refl, refl)),
      )

  evicted_lem :
      (P : PeerId → Type 0) (b : KBucket float) (peer : PeerInfo float) (now idx : ℕ)
      → IsBucket P b
      → P peer.peer_id
      → length b.peers ≡ k
      → position float peer.peer_id b.peers ≡ none
      → find_eviction_candidate float b ≡ some idx
      → (c : KBucket float) × (insert_or_update float b peer now ≡ ok (c, evicted))
        × IsBucket P c
        × Post b peer now (ok (c, evicted))
  unfolding IsBucket Post has insert_or_update find_eviction_candidate
  evicted_lem P b peer now idx inv hp full new found =
      let absent = position-none float peer.peer_id b.peers new in
      elim (candidate_loop-Found float b.peers 0 none float.max_value idx found) [
        | inl never ↦ cc
        | inr (d, at_d, lt, (victim, g, bad)) ↦
            let same : idx ≡ d = omega (arith, at_d) in
            let (p, rest, e, g', len, hs, ds) =
              remove_at_lem float {E = Unit {0}} idx b.peers (omega (arith, same)) in
            let dis = ds inv.1 in
            let p_is : p ≡ victim =
              some-injective p victim (sym g' ∙ ap (get_elem? b.peers) same ∙ g) in
            let size = length-append rest (peer ∷ []) in
            let left : rest ≡ without float idx b.peers =
              ap (λ x. x.1)
                (ok-injective (sym e ∙ remove_at-rest float {E = Unit {0}} idx b.peers p g')) in
            let apart : id_eq peer.peer_id p.peer_id ≡ false = ground (
              arith,
              id_eq_iff peer.peer_id p.peer_id,
              has-get_elem? float b.peers idx p g',
              absent,
            ) in
            (
              record b { peers = rest ++ (peer ∷ []) },
              rw (insert_or_update, new, le→leb k (length b.peers) (omega (arith, full)), found, e),
              (
                omega (arith, size),
                Distinct-snoc float rest peer dis.0 (ground (arith, hs peer.peer_id)),
                λ id h.
                    joined P b peer inv hp id
                      (ground (arith, h, has-append float id rest (peer ∷ []), hs id)),
              ),
              (
                absent,
                omega (arith, size),
                full,
                idx,
                p,
                found,
                g',
                rw p_is bad,
                ground (arith, has-append float p.peer_id rest (peer ∷ []), dis.1, apart),
                λ id. ground (arith, has-append float id rest (peer ∷ []), hs id),
                (ap (λ (ps : List (PeerInfo float)). ps ++ (peer ∷ [])) left, refl),
              ),
            )
      ]

  full_lem :
      (b : KBucket float) (peer : PeerInfo float) (now : ℕ)
      → length b.peers ≡ k
      → position float peer.peer_id b.peers ≡ none
      → find_eviction_candidate float b ≡ none
      → insert_or_update float b peer now ≡ err tt
  unfolding insert_or_update
  full_lem b peer now full new nobody =
      rw (insert_or_update, new, le→leb k (length b.peers) (omega (arith, full)), nobody)

  -- A bucket that comes back keeps the invariant.
  unfoldable pub Kept :
      (PeerId → Type 0) → Outcome (Unit {0}) (KBucket float × InsertOutcome) → Type 0
  Kept P (ok (c, o)) = IsBucket P c
  Kept P (err e) = Unit {0}
  Kept P panic = ⊥

  -- In a bucket of at most k peers with distinct ids, `insert_or_update` does not panic and keeps the
  -- invariant. A peer that is there moves to the end with the new address and time, and keeps all else; a
  -- new one is appended to a bucket that has room, and in a full bucket it takes the place of a dead or
  -- suspect peer, at the end, or is refused where the search finds none. The other peers and their order
  -- stay, and so does the time of the last refresh.
  pub insert_or_update_lem :
      (P : PeerId → Type 0) (b : KBucket float) (peer : PeerInfo float) (now : ℕ)
      → IsBucket P b
      → P peer.peer_id
      → Kept P (insert_or_update float b peer now)
        × Post b peer now (insert_or_update float b peer now)
  unfolding Kept Post IsBucket
  insert_or_update_lem P b peer now inv hp =
      elim (Option-cases (position float peer.peer_id b.peers)) [
        | inr (idx, found) ↦
            let (c, e, kept, post) = updated_lem P b peer now idx inv found in rw e (kept, post)
        | inl new ↦ elim (dec_lt (length b.peers) k) [
          | yes room ↦
              let (c, e, kept, post) = added_lem P b peer now inv hp room new in rw e (kept, post)
          | no full ↦
              let size : length b.peers ≡ k = omega (arith, inv.0) in
              elim (Option-cases (find_eviction_candidate float b)) [
                | inl nobody ↦
                    rw (full_lem b peer now size new nobody)
                      (tt, (position-none float peer.peer_id b.peers new, size, nobody))
                | inr (idx, found) ↦
                    let (c, e, kept, post) = evicted_lem P b peer now idx inv hp size new found in
                    rw e (kept, post)
              ]
        ]
      ]
