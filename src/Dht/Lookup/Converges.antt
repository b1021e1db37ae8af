-- ===== src/Dht/Lookup/Converges.antt =====
-- An iterative lookup of crates/ceky-dht/src/operations.rs ends where there are finitely many peers to
-- hear of: every round before that asks a new one.
use ceky_p2p.Common.{
  suc, ◌*◌, ◌≤◌, ◌<◌, ◌≡◌, refl, ◌∙◌, ap, arith, Bool, true, false, not, ◌⊎◌, inl, inr, List, [],
  ◌∷◌, ◌++◌, map, if◌then◌else◌, length, take, All, All-append, All-take, Bool-cases,
}
use ceky_p2p.Common.Sort.{sort_by, All-sort_by}
use ceky_p2p.Crypto.PeerId.{PeerId, id_eq}
use ceky_p2p.Dht.KBucket.{k, retain}
use ceky_p2p.Dht.KBucket.Peers.{id_eq_iff}
use ceky_p2p.Dht.Lookup.{
  PeerEntry, IterativeLookup, has_entry, contains, set_insert, alpha, add_peer, add_peers,
  new_lookup, mark_queried, is_empty, next_to_query, process_responses,
}
use ceky_p2p.Dht.Lookup.Known.{key}
use ceky_p2p.Dht.Lookup.Covered.{entry_of}
use ceky_p2p.Dht.Lookup.History.{Run}
use ceky_p2p.Dht.Lookup.Queries.{All-unasked}

abbrev DistinctIds : List PeerId → Type 0
DistinctIds [] = Unit {0}
DistinctIds (i ∷ ids) = (contains ids i ≡ false) × DistinctIds ids

without : PeerId → List PeerId → List PeerId
without id [] = []
without id (i ∷ ids) = if id_eq i id then ids else i ∷ without id ids

length-without :
    (id : PeerId) (ids : List PeerId)
    → contains ids id ≡ true
    → suc (length (without id ids)) ≡ length ids
unfolding without
length-without id [] h = cc
length-without id (i ∷ ids) h = ground (arith, length-without id ids)

contains-without :
    (id other : PeerId) (ids : List PeerId)
    → contains ids other ≡ true
    → id_eq id other ≡ false
    → contains (without id ids) other ≡ true
unfolding without
contains-without id other [] h ne = cc
contains-without id other (i ∷ ids) h ne = elim (Bool-cases (id_eq i id)) [
  | inl here ↦
      let same : i ≡ id = (id_eq_iff i id).0 here in
      let apart : id_eq i other ≡ false = ap (λ (x : PeerId). id_eq x other) same ∙ ne in
      rw here (ground (arith, h, apart))
  | inr later ↦ rw later (ground (arith, contains-without id other ids, h, ne))
]

All-without :
    (id : PeerId) (ids all : List PeerId)
    → contains ids id ≡ false
    → All (λ i. contains all i ≡ true) ids
    → All (λ i. contains (without id all) i ≡ true) ids
All-without id [] all h a = tt
All-without id (i ∷ ids) all h a = (
  contains-without id i all a.0 (ground (arith, h, id_eq_iff i id, id_eq_iff id i)),
  All-without id ids all (ground (arith, h)) a.1,
)

-- A list without repeats is no longer than one that has all of its elements.
pigeonhole :
    (ids all : List PeerId)
    → DistinctIds ids
    → All (λ i. contains all i ≡ true) ids
    → length ids ≤ length all
pigeonhole [] all d a = omega arith
pigeonhole (i ∷ ids) all d a = omega (
  arith,
  length-without i all a.0,
  pigeonhole ids (without i all) d.1 (All-without i ids all d.0 a.1),
)

-- The ids asked are distinct, and all known and asked are among those of the list; and each round, until
-- one found nobody to ask, has asked somebody.
pub Inside : List PeerId → IterativeLookup → Type 0
Inside all l =
    All (λ p. contains all p.peer_id ≡ true) l.known_peers
    × DistinctIds l.queried
    × All (λ i. contains all i ≡ true) l.queried
    × ((l.converged ≡ true) ⊎ (l.round ≤ length l.queried))

add_peer-Inside :
    (all : List PeerId) (l : IterativeLookup) (p : PeerEntry)
    → Inside all l
    → contains all p.peer_id ≡ true
    → Inside all (add_peer l p)
unfolding Inside add_peer
add_peer-Inside all l p h hp = elim (Bool-cases (has_entry p.peer_id l.known_peers)) [
  | inl known ↦ rw known h
  | inr new ↦
      let P : PeerEntry → Type 0 = λ q. contains all q.peer_id ≡ true in
      let ps = l.known_peers ++ (entry_of l.target p ∷ []) in
      rw new (
        All-take P (k * 3) (sort_by key ps) (
            All-sort_by key P ps
              (All-append P l.known_peers (entry_of l.target p ∷ []) h.0 (hp, tt))),
        h.1,
        h.2,
        h.3,
      )
]

add_peers-Inside :
    (all : List PeerId) (l : IterativeLookup) (ps : List PeerEntry)
    → Inside all l
    → All (λ i. contains all i ≡ true) (map (λ p. p.peer_id) ps)
    → Inside all (add_peers l ps)
unfolding add_peers
add_peers-Inside all l [] h a = h
add_peers-Inside all l (p ∷ ps) h a =
    add_peers-Inside all (add_peer l p) ps (add_peer-Inside all l p h a.0) a.1

mark_queried-Inside :
    (all : List PeerId) (ps : List PeerEntry) (ids : List PeerId)
    → All (λ p. contains all p.peer_id ≡ true) ps
    → DistinctIds ids
    → All (λ i. contains all i ≡ true) ids
    → DistinctIds (mark_queried ps ids)
      × All (λ i. contains all i ≡ true) (mark_queried ps ids)
      × (length ids ≤ length (mark_queried ps ids))
unfolding mark_queried set_insert
mark_queried-Inside all [] ids a d b = (d, b, omega arith)
mark_queried-Inside all (p ∷ ps) ids a d b = elim (Bool-cases (contains ids p.peer_id)) [
  | inl present ↦ rw present (mark_queried-Inside all ps ids a.1 d b)
  | inr new ↦
      let (d', b', le) = mark_queried-Inside all ps (p.peer_id ∷ ids) a.1 (new, d) (a.0, b) in
      rw new (d', b', omega (arith, le))
]

mark_queried-grows :
    (all : List PeerId) (ps : List PeerEntry) (ids : List PeerId)
    → All (λ p. contains all p.peer_id ≡ true) ps
    → DistinctIds ids
    → All (λ i. contains all i ≡ true) ids
    → All (λ p. contains ids p.peer_id ≡ false) ps
    → (is_empty ps ≡ true) ⊎ (length ids < length (mark_queried ps ids))
unfolding mark_queried set_insert
mark_queried-grows all [] ids a d b f = inl refl
mark_queried-grows all (p ∷ ps) ids a d b f =
    let (d', b', le) = mark_queried-Inside all ps (p.peer_id ∷ ids) a.1 (f.0, d) (a.0, b) in
    inr (rw (f.0) (omega (arith, le)))

All-retain_of :
    (P : PeerEntry → Type 0) (p : PeerEntry → Bool) (ps : List PeerEntry)
    → All P ps
    → All P (retain p ps)
unfolding retain
All-retain_of P p [] a = tt
All-retain_of P p (q ∷ ps) a = elim (Bool-cases (p q)) [
  | inl stays ↦ rw stays (a.0, All-retain_of P p ps a.1)
  | inr goes ↦ rw goes (All-retain_of P p ps a.1)
]

next_to_query-Inside :
    (all : List PeerId) (l : IterativeLookup) → Inside all l → Inside all (next_to_query l).1
unfolding Inside next_to_query
next_to_query-Inside all l h =
    let free = λ (p : PeerEntry). not (contains l.queried p.peer_id) in
    let P : PeerEntry → Type 0 = λ q. contains all q.peer_id ≡ true in
    let batch = take alpha (retain free l.known_peers) in
    let held =
      All-take P alpha (retain free l.known_peers) (All-retain_of P free l.known_peers h.0) in
    let unasked =
      All-take (λ p. contains l.queried p.peer_id ≡ false) alpha (retain free l.known_peers)
        (All-unasked l.queried l.known_peers) in
    let (d, b, le) = mark_queried-Inside all batch l.queried held h.1 h.2 in
    (
      h.0,
      d,
      b,
      elim (mark_queried-grows all batch l.queried held h.1 h.2 unasked) [
        | inl none_left ↦ inl (rw none_left refl)
        | inr grows ↦ elim h.3 [
          | inl over ↦ inl (ground (arith, over))
          | inr few ↦ inr (omega (arith, few, grows))
        ]
      ],
    )

All-append_inverse :
    (P : PeerId → Type 0) (xs ys : List PeerId) → All P (xs ++ ys) → All P xs × All P ys
All-append_inverse P [] ys a = (tt, a)
All-append_inverse P (x ∷ xs) ys a = let (l, r) = All-append_inverse P xs ys a.1 in ((a.0, l), r)

Run-Inside :
    {target : PeerId} {l : IterativeLookup} {seen : List PeerId} (all : List PeerId)
    → Run target l seen
    → All (λ i. contains all i ≡ true) seen
    → Inside all l
unfolding Inside new_lookup process_responses
Run-Inside {target} all (Run.started seeds) a =
    add_peers-Inside all
      (record { target = target; known_peers = []; queried = []; round = 0; converged = false })
      seeds (tt, tt, tt, inr (omega arith)) a
Run-Inside all (Run.asked {l} run) a = next_to_query-Inside all l (Run-Inside all run a)
Run-Inside all (Run.answered {l} {seen} ps run) a =
    let (old, new) =
      All-append_inverse (λ i. contains all i ≡ true) seen (map (λ p. p.peer_id) ps) a in
    add_peers-Inside all l ps (Run-Inside all run old) new

-- Where the peers that a lookup hears of are among finitely many, it has converged once its rounds are
-- more than they.
pub Run-converges :
    {target : PeerId} {l : IterativeLookup} {seen : List PeerId} (all : List PeerId)
    → Run target l seen
    → All (λ i. contains all i ≡ true) seen
    → length all < l.round
    → l.converged ≡ true
unfolding Inside
Run-converges {l} all run a more =
    let h = Run-Inside all run a in
    elim h.3 [
      | inl over ↦ over
      | inr few ↦ absurd (omega (arith, few, more, pigeonhole l.queried all h.1 h.2))
    ]
