-- ===== src/Dht/KBucket/Change.antt =====
-- Removing peers from a bucket of crates/ceky-dht/src/routing.rs and writing to one of them.
use ceky_p2p.Common.{
  suc, ◌≤◌, ◌≡◌, refl, sym, ◌∙◌, ap, arith, Bool, true, false, ◌||◌, inl, inr, Option, none, some,
  List, [], ◌∷◌, length, Bool-cases, Option-cases,
}
use mathlib.Core.Option.{some-injective}
use ceky_p2p.Common.Outcome.{ok}
use ceky_p2p.Crypto.PeerId.{PeerId, id_eq}
use ceky_p2p.Common.Float.{Float}
use ceky_p2p.Dht.PeerInfo.{PeerInfo}
use ceky_p2p.Dht.KBucket.{retain, KBucket, position, remove_peer, modify}
use ceky_p2p.Dht.KBucket.Peers.{has, Distinct, position-none, remove_at_lem}
use ceky_p2p.Dht.KBucket.Insert.{IsBucket}
use ceky_p2p.Dht.KBucket.Candidate.{position-some}

module _ (float : Float) where
  -- What comes out of `remove` of a bucket.
  unfoldable pub Removed : KBucket float → PeerId → KBucket float × Option (PeerInfo float) → Type 0
  Removed b id (c, none) = (c ≡ b) × (has float id b.peers ≡ false)
  Removed b id (c, some p) =
      (p.peer_id ≡ id)
      × (suc (length c.peers) ≡ length b.peers)
      × (has float id c.peers ≡ false)
      × ((other : PeerId) → has float other b.peers ≡ id_eq id other || has float other c.peers)

  pub remove_peer_lem :
      (P : PeerId → Type 0) (b : KBucket float) (id : PeerId)
      → IsBucket float P b
      → (r : KBucket float × Option (PeerInfo float)) × (remove_peer float b id ≡ ok r)
        × IsBucket float P r.0
        × Removed b id r
  unfolding remove_peer IsBucket Removed has
  remove_peer_lem P b id inv = elim (Option-cases (position float id b.peers)) [
    | inl absent ↦
        ((b, none), rw (remove_peer, absent), inv, (refl, position-none float id b.peers absent))
    | inr (idx, found) ↦
        let (old, lt, g, same) = position-some float id b.peers idx found in
        let (p, rest, e, g', len, hs, ds) = remove_at_lem float {E = Unit {0}} idx b.peers lt in
        let dis = ds inv.1 in
        let p_is : p ≡ old = some-injective p old (sym g' ∙ g) in
        let p_id : p.peer_id ≡ id = ap (λ (x : PeerInfo float). x.peer_id) p_is ∙ same in
        (
          (record b { peers = rest }, some p),
          rw (remove_peer, found, e),
          (omega (arith, len, inv.0), dis.0, λ other h. inv.2 other (ground (arith, h, hs other))),
          (p_id, len, rw (← p_id) dis.1, λ other. rw (← p_id) (hs other)),
        )
  ]

  pub length-retain :
      (p : PeerInfo float → Bool) (ps : List (PeerInfo float)) → length (retain p ps) ≤ length ps
  unfolding retain
  length-retain p [] = omega arith
  length-retain p (q ∷ ps) = ground (arith, length-retain p ps)

  has-retain :
      (id : PeerId) (p : PeerInfo float → Bool) (ps : List (PeerInfo float))
      → has float id (retain p ps) ≡ true
      → has float id ps ≡ true
  unfolding retain has
  has-retain id p [] h = h
  has-retain id p (q ∷ ps) h = ground (arith, has-retain id p ps)

  Distinct-retain :
      (p : PeerInfo float → Bool) (ps : List (PeerInfo float))
      → Distinct float ps
      → Distinct float (retain p ps)
  unfolding retain has
  Distinct-retain p [] d = d
  Distinct-retain p (q ∷ ps) d = elim (Bool-cases (p q)) [
    | inl stays ↦
        rw stays (ground (arith, has-retain q.peer_id p ps, d.0), Distinct-retain p ps d.1)
    | inr goes ↦ rw goes (Distinct-retain p ps d.1)
  ]

  pub retain-IsBucket :
      (P : PeerId → Type 0) (p : PeerInfo float → Bool) (b : KBucket float)
      → IsBucket float P b
      → IsBucket float P (record b { peers = retain p b.peers })
  unfolding IsBucket
  retain-IsBucket P p b inv = (
    omega (arith, length-retain p b.peers, inv.0),
    Distinct-retain p b.peers inv.1,
    λ id h. inv.2 id (has-retain id p b.peers h),
  )

  module _ (f : PeerInfo float → PeerInfo float)
      (same : (p : PeerInfo float) → (f p).peer_id ≡ p.peer_id) where
    pub length-modify :
        (id : PeerId) (ps : List (PeerInfo float)) → length (modify float id f ps) ≡ length ps
    unfolding modify
    length-modify id [] = refl
    length-modify id (p ∷ ps) = ground (arith, length-modify id ps)

    pub has-modify :
        (other id : PeerId) (ps : List (PeerInfo float))
        → has float other (modify float id f ps) ≡ has float other ps
    unfolding modify has
    has-modify other id [] = refl
    has-modify other id (p ∷ ps) = elim (Bool-cases (id_eq p.peer_id id)) [
      | inl hit ↦ rw (hit, same p) refl
      | inr miss ↦ rw (miss, has-modify other id ps) refl
    ]

    Distinct-modify :
        (id : PeerId) (ps : List (PeerInfo float))
        → Distinct float ps
        → Distinct float (modify float id f ps)
    unfolding modify
    Distinct-modify id [] d = d
    Distinct-modify id (p ∷ ps) d = elim (Bool-cases (id_eq p.peer_id id)) [
      | inl hit ↦ rw (hit, same p) d
      | inr miss ↦ rw miss (has-modify p.peer_id id ps ∙ d.0, Distinct-modify id ps d.1)
    ]

    pub modify-IsBucket :
        (P : PeerId → Type 0) (id : PeerId) (b : KBucket float)
        → IsBucket float P b
        → IsBucket float P (record b { peers = modify float id f b.peers })
    unfolding IsBucket
    modify-IsBucket P id b inv = (
      omega (arith, length-modify id b.peers, inv.0),
      Distinct-modify id b.peers inv.1,
      λ other h. inv.2 other (sym (has-modify other id b.peers) ∙ h),
    )
