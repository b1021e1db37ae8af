-- ===== src/Dht/Lookup/History.antt =====
-- The histories of an iterative lookup of crates/ceky-dht/src/operations.rs, as a step relation, and what
-- its answer is worth.
use mathlib.Core.List.{append_assoc, append-nil}
use ceky_p2p.Common.{
  ◌≡◌, refl, ◌∙◌, ap, arith, true, false, ◌⊎◌, inl, inr, List, [], ◌∷◌, ◌++◌, map, length,
  length-take, take, drop, length-drop, All-drop, take-append-drop, All, All-append, All-take,
  Bool-cases,
}
use ceky_p2p.Common.Sort.{IsSorted, bytes_le, take-IsSorted, take-drop-Above}
use ceky_p2p.Crypto.PeerId.{PeerId, id_eq, xor_distance}
use ceky_p2p.Dht.KBucket.{k}
use ceky_p2p.Dht.Lookup.{
  PeerEntry, IterativeLookup, has_entry, add_peer, add_peers, new_lookup, next_to_query,
  process_responses, result,
}
use ceky_p2p.Dht.Lookup.Known.{key, any-append}
use ceky_p2p.Dht.Lookup.Covered.{
  Within, IsKnown, Covered, All-map, All-has_entry, has_entry-length, added, added-IsKnown,
  added-Covered,
}

-- The history of a lookup: the operations on it, and the ids of the peers that it was told of.
pub data Run (target : PeerId) : IterativeLookup → List PeerId → Type 0 where
  started :
      (seeds : List PeerEntry) → Run target (new_lookup target seeds) (map (λ p. p.peer_id) seeds)
  asked :
      {l : IterativeLookup} {seen : List PeerId}
      → Run target l seen
      → Run target (next_to_query l).1 seen
  answered :
      {l : IterativeLookup} {seen : List PeerId} (ps : List PeerEntry)
      → Run target l seen
      → Run target (process_responses l ps) (seen ++ map (λ p. p.peer_id) ps)

All-ids :
    {P Q : PeerId → Type 0} (ids : List PeerId)
    → ((id : PeerId) → P id → Q id)
    → All P ids
    → All Q ids
All-ids [] f a = tt
All-ids (i ∷ ids) f a = (f i a.0, All-ids ids f a.1)

add_peer-unchanged :
    (l : IterativeLookup) (p : PeerEntry)
    → has_entry p.peer_id l.known_peers ≡ true
    → add_peer l p ≡ l
unfolding add_peer
add_peer-unchanged l p h = rw h refl

add_peer-added :
    (l : IterativeLookup) (p : PeerEntry)
    → has_entry p.peer_id l.known_peers ≡ false
    → add_peer l p ≡ record l { known_peers = added l.target l.known_peers p }
unfolding add_peer
add_peer-added l p h = rw h refl

-- What holds of a lookup that was told of the peers.
pub Holds : IterativeLookup → List PeerId → Type 0
Holds l seen = IsKnown l.target l.known_peers × All (Covered l.target l.known_peers) seen

add_peer-Holds :
    (l : IterativeLookup) (seen : List PeerId) (p : PeerEntry)
    → Holds l seen
    → Holds (add_peer l p) (seen ++ (p.peer_id ∷ [])) × ((add_peer l p).target ≡ l.target)
unfolding Holds Covered
add_peer-Holds l seen p h = elim (Bool-cases (has_entry p.peer_id l.known_peers)) [
  | inl known ↦ rw (add_peer-unchanged l p known) (
    (h.0, All-append (Covered l.target l.known_peers) seen (p.peer_id ∷ []) h.1 (inl known, tt)),
    refl,
  )
  | inr new ↦
      let ps = added l.target l.known_peers p in
      rw (add_peer-added l p new) (
        (
          added-IsKnown l.target l.known_peers p h.0 new,
          All-append (Covered l.target ps) seen (p.peer_id ∷ [])
              (All-ids seen (λ id c. added-Covered l.target id l.known_peers p h.0 new (inl c)) h.1)
              (added-Covered l.target p.peer_id l.known_peers p h.0 new (inr refl), tt),
        ),
        refl,
      )
]

add_peers-Holds :
    (l : IterativeLookup) (seen : List PeerId) (ps : List PeerEntry)
    → Holds l seen
    → Holds (add_peers l ps) (seen ++ map (λ p. p.peer_id) ps)
      × ((add_peers l ps).target ≡ l.target)
unfolding add_peers
add_peers-Holds l seen [] h = (rw (append-nil seen) h, refl)
add_peers-Holds l seen (p ∷ ps) h =
    let (now, same) = add_peer-Holds l seen p h in
    let (later, same') = add_peers-Holds (add_peer l p) (seen ++ (p.peer_id ∷ [])) ps now in
    (rw (← append_assoc seen (p.peer_id ∷ []) (map (λ q. q.peer_id) ps)) later, same' ∙ same)

-- Through all of its history a lookup holds at most 60 peers, sorted by their distance from the target
-- and none twice, and each peer that it was told of is one of them or no closer than any of the 60.
pub Run-Holds :
    {target : PeerId} {l : IterativeLookup} {seen : List PeerId}
    → Run target l seen
    → Holds l seen × (l.target ≡ target)
unfolding new_lookup next_to_query process_responses Holds IsKnown
Run-Holds {target} (Run.started seeds) =
    add_peers-Holds
      (record { target = target; known_peers = []; queried = []; round = 0; converged = false }) []
      seeds ((omega arith, tt, tt, tt), tt)
Run-Holds (Run.asked run) = Run-Holds run
Run-Holds (Run.answered {l} {seen} ps run) =
    let (h, same) = Run-Holds run in
    let (h', same') = add_peers-Holds l seen ps h in (h', same' ∙ same)

closest-lem :
    (target id : PeerId) (ps : List PeerEntry)
    → IsKnown target ps
    → Covered target ps id
    → (has_entry id (take k ps) ≡ true)
      ⊎ ((length (take k ps) ≡ k) × Within (xor_distance id target) (take k ps))
unfolding IsKnown Covered
closest-lem target id ps h (inr (full, w)) = inr (
  omega (arith, length-take k ps, full),
  All-take (λ p. bytes_le p.distance (xor_distance id target) ≡ true) k ps w,
)
closest-lem target id ps h (inl found) = elim (Bool-cases (has_entry id (take k ps))) [
  | inl stays ↦ inl stays
  | inr goes ↦
      let split = ap (has_entry id) (take-append-drop k ps) in
      let out : has_entry id (drop k ps) ≡ true =
        ground (
          arith,
          split,
          any-append (λ p. id_eq p.peer_id id) (take k ps) (drop k ps),
          found,
          goes,
        ) in
      inr (
        omega (arith, length-take k ps, length-drop k ps, has_entry-length id (drop k ps) out),
        All-map (take k ps)
            (λ p a.
              All-has_entry target id (drop k ps) (λ e. bytes_le p.distance e ≡ true) out
                (All-drop (λ q. q.distance ≡ xor_distance q.peer_id target) k ps h.2) a)
            (take-drop-Above key k ps h.1),
      )
]

-- Each peer that a lookup was told of is in its result or no closer to the target than any peer of a result of 20.
pub result-closest :
    {target : PeerId} {l : IterativeLookup} {seen : List PeerId}
    → Run target l seen
    → IsSorted key (result l).closest
      × All
          (λ id.
            (has_entry id (result l).closest ≡ true)
            ⊎ ((length (result l).closest ≡ k)
                × Within (xor_distance id target) (result l).closest))
          seen
unfolding result Holds IsKnown
result-closest {target} {l} {seen} run =
    let (h, same) = Run-Holds run in
    (
      take-IsSorted key k l.known_peers h.0.1,
      rw (← same) (All-ids seen (λ id c. closest-lem l.target id l.known_peers h.0 c) h.1),
    )
