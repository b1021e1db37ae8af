-- ===== src/Dht/KBucket/Candidate.antt =====
-- Where `KBucket::find` and `find_eviction_candidate` of crates/ceky-dht/src/routing.rs point.
use ceky_p2p.Common.{
  ℕ, zero, suc, ◌+◌, ◌<◌, ◌≡◌, ◌⊎◌, inl, inr, refl, arith, true, ◌&&◌, Option, some, List, [], ◌∷◌,
  length, get_elem?, Bool-cases, Option-cases,
}
use ceky_p2p.Crypto.PeerId.{PeerId, id_eq}
use ceky_p2p.Common.Float.{Float}
use ceky_p2p.Dht.PeerInfo.{PeerInfo, composite_score}
use ceky_p2p.Dht.KBucket.{evictable, position, candidate_loop}
use mathlib.Core.Option.{some-injective}
use ceky_p2p.Dht.KBucket.Peers.{id_eq_iff}

module _ (float : Float) where
  pub position-some :
      (id : PeerId) (ps : List (PeerInfo float)) (i : ℕ)
      → position float id ps ≡ some i
      → (p : PeerInfo float) × (i < length ps) × (get_elem? ps i ≡ some p) × (p.peer_id ≡ id)
  unfolding position
  position-some id [] i e = cc
  position-some id (p ∷ ps) i e = elim (Bool-cases (id_eq p.peer_id id)) [
    | inl hit ↦
        let first : zero ≡ i = ground arith in
        rw (← first) (p, omega arith, refl, (id_eq_iff p.peer_id id).0 hit)
    | inr miss ↦ elim (Option-cases (position float id ps)) [
      | inl none_found ↦ cc (miss, none_found, e)
      | inr (j, found) ↦
          let next : suc j ≡ i = ground arith in
          let (q, lt, got, same) = position-some id ps j found in
          rw (← next) (q, omega arith, got, same)
    ]
  ]

  -- At index j, counted from i, there is a peer that may be evicted.
  abbrev pub Found : List (PeerInfo float) → ℕ → ℕ → Type 0
  Found ps i j =
      (d : ℕ) × (j ≡ i + d)
      × (d < length ps)
      × ((p : PeerInfo float) × (get_elem? ps d ≡ some p) × (evictable p.state ≡ true))

  Found-later :
      (p : PeerInfo float) (ps : List (PeerInfo float)) (i j : ℕ)
      → Found ps (i + 1) j
      → Found (p ∷ ps) i j
  Found-later p ps i j (d, e, lt, q) = (suc d, omega arith, omega arith, q)

  pub candidate_loop-Found :
      (ps : List (PeerInfo float)) (i : ℕ) (best : Option ℕ) (score : float.F64) (j : ℕ)
      → candidate_loop float ps i best score ≡ some j
      → (best ≡ some j) ⊎ Found ps i j
  unfolding candidate_loop
  candidate_loop-Found [] i best score j e = inl e
  candidate_loop-Found (p ∷ ps) i best score j e =
      elim (Bool-cases (evictable p.state && float.lt (composite_score float p.score) score)) [
        | inl better ↦
            elim (candidate_loop-Found ps (i + 1) (some i) (composite_score float p.score) j
              (rw (better) at e)) [
                | inl here ↦ inr (
                  0,
                  omega (arith, some-injective i j here),
                  omega arith,
                  (p, refl, ground (arith, better)),
                )
                | inr later ↦ inr (Found-later p ps i j later)
              ]
        | inr worse ↦ elim (candidate_loop-Found ps (i + 1) best score j (rw (worse) at e)) [
          | inl before ↦ inl before
          | inr later ↦ inr (Found-later p ps i j later)
        ]
      ]
