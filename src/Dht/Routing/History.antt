-- ===== src/Dht/Routing/History.antt =====
-- Every table that the operations of crates/ceky-dht/src/routing.rs can make.
use ceky_p2p.Common.{
  ℕ, ◌≡◌, refl, ap, sym, subst, ◌∙◌, inl, inr, Bool, true, false, Option, none, some, Option-cases,
  get_elem?,
}
use ceky_p2p.Common.Outcome.{Outcome, ok, err, panic, ◌>>=◌, ok-injective}
use ceky_p2p.Crypto.PeerId.{PeerId, IsPeerId, bucket_index}
use ceky_p2p.Common.Float.{Float}
use ceky_p2p.Dht.PeerInfo.{PeerInfo}
use ceky_p2p.Dht.KBucket.{KBucket, at, remove_peer}
use ceky_p2p.Dht.Routing.{RoutingTable, removed, new_table, insert, remove, get_mut, evict_dead}
use ceky_p2p.Dht.Routing.Table.{IsTable, Inserted, insert-IsTable}
use ceky_p2p.Dht.Routing.Change.{
  new_table-IsTable, remove-IsTable, get_mut-IsTable, evict_dead-IsTable,
}

module _ (float : Float) where
  -- A call that succeeds. A write through `get_mut` leaves the peer's id alone, as `mark_active` and
  -- `mark_suspect` do.
  pub data Step (t : RoutingTable float) : RoutingTable float → Type 0 where
    inserting :
        (id : PeerId) (addr now : ℕ) {u : RoutingTable float} {fresh : Bool}
        → IsPeerId id
        → insert float t id addr now ≡ ok (u, fresh)
        → Step t u
    removing :
        (id : PeerId) {u : RoutingTable float} {lost : Option (PeerInfo float)}
        → IsPeerId id
        → remove float t id ≡ ok (u, lost)
        → Step t u
    writing :
        (id : PeerId) (f : PeerInfo float → PeerInfo float) {u : RoutingTable float}
        → IsPeerId id
        → ((p : PeerInfo float) → (f p).peer_id ≡ p.peer_id)
        → get_mut float t id f ≡ ok u
        → Step t u
    evicting : {u : RoutingTable float} → (evict_dead float t).0 ≡ u → Step t u

  pub data Reachable (local : PeerId) : RoutingTable float → Type 0 where
    created : (now : ℕ) → Reachable local (new_table float local now)
    stepped : {t u : RoutingTable float} → Reachable local t → Step t u → Reachable local u

  Inserted-ok :
      (t u : RoutingTable float) (id : PeerId) (fresh : Bool)
      → Inserted float t id (ok (u, fresh))
      → IsTable float u × (u.local_id ≡ t.local_id)
  unfolding Inserted
  Inserted-ok t u id true h = (h.0, h.1)
  Inserted-ok t u id false h = (h.0, h.1)

  removed-local_id :
      (t u : RoutingTable float) (i : ℕ)
      (o : Outcome (Unit {0}) (KBucket float × Option (PeerInfo float)))
      (lost : Option (PeerInfo float))
      → (o >>= λ r. ok (removed float t i r)) ≡ ok (u, lost)
      → u.local_id ≡ t.local_id
  unfolding removed
  removed-local_id t u i (ok (c, none)) lost e = ap (λ r. r.0.local_id) (sym (ok-injective e))
  removed-local_id t u i (ok (c, some p)) lost e = ap (λ r. r.0.local_id) (sym (ok-injective e))
  removed-local_id t u i (err x) lost e = cc
  removed-local_id t u i panic lost e = cc

  remove-local_id :
      (t u : RoutingTable float) (id : PeerId) (lost : Option (PeerInfo float))
      → remove float t id ≡ ok (u, lost)
      → u.local_id ≡ t.local_id
  unfolding remove
  remove-local_id t u id lost e = elim (Option-cases (bucket_index t.local_id id)) [
    | inl nowhere ↦
        let e' = rw (remove, nowhere) at e in ap (λ r. r.0.local_id) (sym (ok-injective e'))
    | inr (i, there) ↦ elim (Option-cases (get_elem? t.buckets i)) [
      | inl outside ↦ cc (rw (remove, there, at, outside) at e)
      | inr (b, held) ↦
          removed-local_id t u i (remove_peer float b id) lost (rw (remove, there, at, held) at e)
    ]
  ]

  get_mut-local_id :
      (t u : RoutingTable float) (id : PeerId) (f : PeerInfo float → PeerInfo float)
      → get_mut float t id f ≡ ok u
      → u.local_id ≡ t.local_id
  unfolding get_mut
  get_mut-local_id t u id f e = elim (Option-cases (bucket_index t.local_id id)) [
    | inl nowhere ↦
        let e' = rw (get_mut, nowhere) at e in ap (λ r. r.local_id) (sym (ok-injective e'))
    | inr (i, there) ↦ elim (Option-cases (get_elem? t.buckets i)) [
      | inl outside ↦ cc (rw (get_mut, there, at, outside) at e)
      | inr (b, held) ↦
          let e' = rw (get_mut, there, at, held) at e in
          ap (λ r. r.local_id) (sym (ok-injective e'))
    ]
  ]

  Step-IsTable :
      {t u : RoutingTable float}
      → Step t u
      → IsTable float t
      → IsPeerId t.local_id
      → IsTable float u × (u.local_id ≡ t.local_id)
  unfolding evict_dead
  Step-IsTable {t} {u} (inserting id addr now {u = v} {fresh} good e) h local =
      Inserted-ok t v id fresh
        (subst (Inserted float t id) e (insert-IsTable float t id addr now h local good))
  Step-IsTable {t} {u} (removing id {u = v} {lost} good e) h local =
      let (r, came, kept, _) = remove-IsTable float t id h local good in
      let same : r ≡ (v, lost) = ok-injective (sym came ∙ e) in
      (
        subst (λ (x : RoutingTable float × Option (PeerInfo float)). IsTable float x.0) same kept,
        remove-local_id t v id lost e,
      )
  Step-IsTable {t} {u} (writing id f {u = v} good same e) h local =
      let (w, came, kept, _) = get_mut-IsTable float f t id same h local good in
      let this : w ≡ v = ok-injective (sym came ∙ e) in
      (subst (IsTable float) this kept, get_mut-local_id t v id f e)
  Step-IsTable {t} {u} (evicting {u = v} e) h local =
      (subst (IsTable float) e (evict_dead-IsTable float t h).0, ap (λ x. x.local_id) (sym e))

  -- Every table that calls of the operations make from a new one, for ids of 32 bytes, keeps its local id,
  -- holds each peer once and in its own bucket, no bucket has more than k peers, and the total is their
  -- number.
  pub Reachable-IsTable :
      {local : PeerId} {t : RoutingTable float}
      → IsPeerId local
      → Reachable local t
      → IsTable float t × (t.local_id ≡ local)
  unfolding new_table
  Reachable-IsTable {local} good (created now) = (new_table-IsTable float local now, refl)
  Reachable-IsTable {local} good (stepped r st) =
      let (h, same) = Reachable-IsTable good r in
      let (h', kept) = Step-IsTable st h (rw same good) in (h', kept ∙ same)
