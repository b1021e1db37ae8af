-- ===== src/Dht/Lookup/Queries.antt =====
-- Whom an iterative lookup of crates/ceky-dht/src/operations.rs asks: no peer twice, and, with finitely
-- many peers to hear of, finitely often.
use ceky_p2p.Common.{
  ◌≤◌, ◌≡◌, refl, sym, ◌∙◌, ap, arith, true, false, not, ◌||◌, inl, inr, List, [], ◌∷◌, length,
  length-take, take, All, All-take, Bool-cases,
}
use ceky_p2p.Crypto.PeerId.{PeerId, id_eq}
use ceky_p2p.Dht.KBucket.{retain}
use ceky_p2p.Dht.KBucket.Peers.{id_eq_iff}
use ceky_p2p.Dht.Lookup.{
  PeerEntry, IterativeLookup, has_entry, contains, set_insert, alpha, mark_queried, is_empty,
  next_to_query,
}

pub contains-set_insert :
    (id other : PeerId) (ids : List PeerId)
    → contains (set_insert id ids) other ≡ id_eq id other || contains ids other
unfolding set_insert
contains-set_insert id other ids = elim (Bool-cases (contains ids id)) [
  | inr absent ↦ rw absent refl
  | inl present ↦ rw present (elim (Bool-cases (id_eq id other)) [
    | inr apart ↦ rw apart refl
    | inl same ↦ rw same (ap (contains ids) (sym ((id_eq_iff id other).0 same)) ∙ present)
  ])
]

contains-mark_queried :
    (other : PeerId) (ps : List PeerEntry) (ids : List PeerId)
    → contains (mark_queried ps ids) other ≡ has_entry other ps || contains ids other
unfolding mark_queried
contains-mark_queried other [] ids = refl
contains-mark_queried other (p ∷ ps) ids = ground (
  arith,
  contains-mark_queried other ps (set_insert p.peer_id ids),
  contains-set_insert p.peer_id other ids,
)

pub All-unasked :
    (ids : List PeerId) (ps : List PeerEntry)
    → All (λ p. contains ids p.peer_id ≡ false) (retain (λ p. not (contains ids p.peer_id)) ps)
unfolding retain
All-unasked ids [] = tt
All-unasked ids (p ∷ ps) = elim (Bool-cases (contains ids p.peer_id)) [
  | inl asked ↦ rw asked (All-unasked ids ps)
  | inr free ↦ rw free (free, All-unasked ids ps)
]

weaken :
    (p : PeerEntry) (ps qs : List PeerEntry)
    → All (λ q. has_entry q.peer_id ps ≡ true) qs
    → All (λ q. has_entry q.peer_id (p ∷ ps) ≡ true) qs
weaken p ps [] h = tt
weaken p ps (q ∷ qs) h = (ground (arith, h.0), weaken p ps qs h.1)

All-has_entry_self : (ps : List PeerEntry) → All (λ p. has_entry p.peer_id ps ≡ true) ps
All-has_entry_self [] = tt
All-has_entry_self (p ∷ ps) =
    (ground (arith, id_eq_iff p.peer_id p.peer_id), weaken p ps ps (All-has_entry_self ps))

All-marked :
    (ids : List PeerId) (ps qs : List PeerEntry)
    → All (λ q. has_entry q.peer_id ps ≡ true) qs
    → All (λ q. contains (mark_queried ps ids) q.peer_id ≡ true) qs
All-marked ids ps [] h = tt
All-marked ids ps (q ∷ qs) h =
    (ground (arith, contains-mark_queried q.peer_id ps ids, h.0), All-marked ids ps qs h.1)

-- `next_to_query` gives at most three peers, none asked before and all marked as asked after; no peer
-- that was asked is forgotten, and the lookup has converged if it gives none.
pub next_to_query_lem :
    (l : IterativeLookup)
    → let batch = (next_to_query l).0 in
      let after = (next_to_query l).1 in
      (length batch ≤ alpha)
      × All (λ p. contains l.queried p.peer_id ≡ false) batch
      × All (λ p. contains after.queried p.peer_id ≡ true) batch
      × ((id : PeerId) → contains l.queried id ≡ true → contains after.queried id ≡ true)
      × (after.converged ≡ is_empty batch || l.converged)
unfolding next_to_query
next_to_query_lem l =
    let unasked = retain (λ p. not (contains l.queried p.peer_id)) l.known_peers in
    let batch = take alpha unasked in
    (
      omega (arith, length-take alpha unasked),
      All-take (λ p. contains l.queried p.peer_id ≡ false) alpha unasked
          (All-unasked l.queried l.known_peers),
      All-marked l.queried batch batch (All-has_entry_self batch),
      λ id h. ground (arith, contains-mark_queried id batch l.queried, h),
      elim (Bool-cases (is_empty batch)) [
        | inl none_left ↦ rw none_left refl
        | inr some_left ↦ rw some_left refl
      ],
    )
