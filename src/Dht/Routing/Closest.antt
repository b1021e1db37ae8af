-- ===== src/Dht/Routing/Closest.antt =====
-- `RoutingTable::find_closest` of crates/ceky-dht/src/routing.rs.
use mathlib.Core.List.{Perm}
use ceky_p2p.Common.{
  ℕ, min, ◌≡◌, Bool, true, inl, inr, List, [], ◌∷◌, ◌++◌, length, length-take, drop,
  take-append-drop, All, All-take, Bool-cases, arith,
}
use ceky_p2p.Common.Sort.{
  sort_by, IsSorted, Above, sort_by-IsSorted, sort_by-Perm, All-sort_by, length-sort_by,
  take-IsSorted, take-drop-Above,
}
use ceky_p2p.Crypto.PeerId.{PeerId, xor_distance}
use ceky_p2p.Common.Float.{Float}
use ceky_p2p.Dht.PeerInfo.{PeerInfo, is_usable}
use ceky_p2p.Dht.KBucket.{retain}
use ceky_p2p.Dht.Routing.{RoutingTable, all_peers, active_peers, find_closest}

module _ (float : Float) where
  All-retain :
      (p : PeerInfo float → Bool) (ps : List (PeerInfo float)) → All (λ q. p q ≡ true) (retain p ps)
  unfolding retain
  All-retain p [] = tt
  All-retain p (q ∷ ps) = elim (Bool-cases (p q)) [
    | inl stays ↦ rw stays (stays, All-retain p ps)
    | inr goes ↦ rw goes (All-retain p ps)
  ]

  abbrev pub distance_to : PeerId → PeerInfo float → List ℕ
  distance_to target p = xor_distance p.peer_id target

  -- `find_closest` gives the usable peers closest to the target, in order: it and the peers left out are
  -- a rearrangement of the usable peers of the table, what it gives is sorted by distance and all of it
  -- is usable, none left out is closer than one given, and its length is `count` or, where there are
  -- fewer, the number of usable peers.
  pub find_closest_lem :
      (t : RoutingTable float) (target : PeerId) (n : ℕ)
      → (others : List (PeerInfo float)) × Perm
          (find_closest float t target n ++ others)
          (active_peers float t)
        × IsSorted (distance_to target) (find_closest float t target n)
        × All (λ p. is_usable float p ≡ true) (find_closest float t target n)
        × All
            (λ p. Above (distance_to target) (distance_to target p) others)
            (find_closest float t target n)
        × (length (find_closest float t target n) ≡ min n (length (active_peers float t)))
  unfolding find_closest active_peers all_peers
  find_closest_lem t target n =
      let usable = retain (is_usable float) (all_peers float t) in
      let key = distance_to target in
      let sorted = sort_by key usable in
      (
        drop n sorted,
        rw (take-append-drop n sorted) (sort_by-Perm key usable),
        take-IsSorted key n sorted (sort_by-IsSorted key usable),
        All-take (λ p. is_usable float p ≡ true) n sorted
            (All-sort_by key (λ p. is_usable float p ≡ true) usable
              (All-retain (is_usable float) (all_peers float t))),
        take-drop-Above key n sorted (sort_by-IsSorted key usable),
        omega (arith, length-take n sorted, length-sort_by key usable),
      )
