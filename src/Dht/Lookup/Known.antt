-- ===== src/Dht/Lookup/Known.antt =====
-- Lists of the entries that an iterative lookup of crates/ceky-dht/src/operations.rs keeps: their ids,
-- and what sorting does to them.
use ceky_p2p.Common.{
  ℕ, ◌≡◌, refl, ◌∙◌, arith, Bool, true, false, ◌||◌, inl, inr, List, [], ◌∷◌, ◌++◌, any, Bool-cases,
}
use ceky_p2p.Common.Sort.{sort_by, bytes_le, insert_by, any-insert_by, any-sort_by}
use ceky_p2p.Crypto.PeerId.{PeerId, id_eq}
use ceky_p2p.Dht.KBucket.Peers.{id_eq_iff}
use ceky_p2p.Dht.Lookup.{PeerEntry, has_entry}

abbrev pub key : PeerEntry → List ℕ
key p = p.distance

-- No two entries have the same id.
abbrev pub DistinctEntries : List PeerEntry → Type 0
DistinctEntries [] = Unit {0}
DistinctEntries (p ∷ ps) = (has_entry p.peer_id ps ≡ false) × DistinctEntries ps

pub any-append :
    (p : PeerEntry → Bool) (xs ys : List PeerEntry) → any p (xs ++ ys) ≡ any p xs || any p ys
any-append p [] ys = refl
any-append p (x ∷ xs) ys = ground (arith, any-append p xs ys)

insert_by-Distinct :
    (p : PeerEntry) (ps : List PeerEntry)
    → has_entry p.peer_id ps ≡ false
    → DistinctEntries ps
    → DistinctEntries (insert_by key p ps)
unfolding insert_by
insert_by-Distinct p [] h d = (refl, tt)
insert_by-Distinct p (q ∷ ps) h d = elim (Bool-cases (bytes_le p.distance q.distance)) [
  | inl le ↦ rw le (h, d)
  | inr gt ↦
      let apart : id_eq p.peer_id q.peer_id ≡ false =
        ground (arith, id_eq_iff p.peer_id q.peer_id, id_eq_iff q.peer_id p.peer_id, h) in
      rw gt (
        ground (arith, any-insert_by key (λ r. id_eq r.peer_id q.peer_id) p ps, d.0, apart),
        insert_by-Distinct p ps (ground (arith, h)) d.1,
      )
]

pub sort_by-Distinct : (ps : List PeerEntry) → DistinctEntries ps → DistinctEntries (sort_by key ps)
unfolding sort_by
sort_by-Distinct [] d = tt
sort_by-Distinct (p ∷ ps) d =
    insert_by-Distinct p (sort_by key ps)
      (any-sort_by key (λ q. id_eq q.peer_id p.peer_id) ps ∙ d.0) (sort_by-Distinct ps d.1)

pub append-Distinct :
    (ps qs : List PeerEntry)
    → DistinctEntries (ps ++ qs)
    → DistinctEntries ps × ((id : PeerId) → has_entry id qs ≡ true → has_entry id ps ≡ false)
append-Distinct [] qs d = (tt, λ id h. refl)
append-Distinct (p ∷ ps) qs d =
    let (dp, apart) = append-Distinct ps qs d.1 in
    (
      (ground (arith, any-append (λ q. id_eq q.peer_id p.peer_id) ps qs, d.0), dp),
      λ id h. ground (
        arith,
        apart id h,
        any-append (λ q. id_eq q.peer_id p.peer_id) ps qs,
        d.0,
        h,
        id_eq_iff p.peer_id id,
      ),
    )

pub snoc-Distinct :
    (ps : List PeerEntry) (q : PeerEntry)
    → has_entry q.peer_id ps ≡ false
    → DistinctEntries ps
    → DistinctEntries (ps ++ (q ∷ []))
snoc-Distinct [] q h d = (refl, tt)
snoc-Distinct (p ∷ ps) q h d = (
  ground (
    arith,
    any-append (λ r. id_eq r.peer_id p.peer_id) ps (q ∷ []),
    d.0,
    h,
    id_eq_iff q.peer_id p.peer_id,
    id_eq_iff p.peer_id q.peer_id,
  ),
  snoc-Distinct ps q (ground (arith, h)) d.1,
)
