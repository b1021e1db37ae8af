-- ===== src/Dht/KBucket.antt =====
-- The k-buckets of crates/ceky-dht/src/routing.rs. `Vec::remove` and an index panic out of range; an
-- error leaves the bucket as it was; a call that reads the clock takes the time.
pub mod Peers
pub mod Candidate
pub mod Insert
pub mod Change
use ceky_p2p.Common.{
  ℕ, zero, suc, ◌+◌, Bool, true, false, not, ◌&&◌, Option, none, some, List, [], ◌∷◌, ◌++◌, leb,
  if◌then◌else◌, length, get_elem?, set,
}
use mathlib.Core.Option
use ceky_p2p.Common.Outcome.{Outcome, ok, err, panic, ◌>>=◌}
use ceky_p2p.Crypto.PeerId.{PeerId, id_eq}
use ceky_p2p.Common.Float.{Float}
use ceky_p2p.Dht.PeerInfo.{
  PeerState, discovered, active, suspect, dead, PeerInfo, composite_score, touch,
}

abbrev pub k : ℕ
k = 20

pub data InsertOutcome : Type 0 where
  new_peer_added updated evicted : InsertOutcome

-- `Vec::remove`: the element at the index and the others.
unfoldable pub remove_at : {E A : Type 0} → ℕ → List A → Outcome E (A × List A)
remove_at i [] = panic
remove_at zero (x ∷ xs) = ok (x, xs)
remove_at (suc i) (x ∷ xs) = do (y, ys) ← remove_at i xs; ok (y, x ∷ ys)

-- `Vec::retain`
unfoldable pub retain : {A : Type 0} → (A → Bool) → List A → List A
retain p [] = []
retain p (x ∷ xs) = if p x then x ∷ retain p xs else retain p xs

-- An index into a vector.
abbrev pub at : {E A : Type 0} → List A → ℕ → Outcome E A
at xs i = elim (get_elem? xs i) [ none ↦ panic | some x ↦ ok x ]

abbrev pub evictable : PeerState → Bool
evictable dead = true
evictable suspect = true
evictable discovered = false
evictable active = false

module _ (float : Float) where
  pub record KBucket : Type 0 where
    pub peers : List (PeerInfo float)
    pub last_refresh : ℕ

  unfoldable pub new_bucket : ℕ → KBucket
  new_bucket now = record { peers = []; last_refresh = now }

  abbrev pub is_full : KBucket → Bool
  is_full b = leb k (length b.peers)

  unfoldable pub position : PeerId → List (PeerInfo float) → Option ℕ
  position id [] = none
  position id (p ∷ ps) = if id_eq p.peer_id id then some 0 else Option.map suc (position id ps)

  unfoldable pub find_peer : PeerId → List (PeerInfo float) → Option (PeerInfo float)
  find_peer id [] = none
  find_peer id (p ∷ ps) = if id_eq p.peer_id id then some p else find_peer id ps

  -- The loop of `find_eviction_candidate` from index i on.
  unfoldable pub candidate_loop : List (PeerInfo float) → ℕ → Option ℕ → float.F64 → Option ℕ
  candidate_loop [] i best_idx best_score = best_idx
  candidate_loop (p ∷ ps) i best_idx best_score =
      let score = composite_score float p.score in
      let better = evictable p.state && float.lt score best_score in
      candidate_loop ps (i + 1) (if better then some i else best_idx)
        (if better then score else best_score)

  unfoldable pub find_eviction_candidate : KBucket → Option ℕ
  unfolding candidate_loop
  find_eviction_candidate b = candidate_loop b.peers 0 none float.max_value

  -- `err tt` is `Err(())`.
  unfoldable pub insert_or_update :
      KBucket → PeerInfo float → ℕ → Outcome (Unit {0}) (KBucket × InsertOutcome)
  unfolding touch
  insert_or_update b peer now = elim (position peer.peer_id b.peers) [
    | some idx ↦ do
      old ← at b.peers idx
      (p, rest) ←
          remove_at idx (set b.peers idx (touch float (record old { addr = peer.addr }) now))
      ok (record b { peers = rest ++ (p ∷ []) }, updated)
    | none ↦
        if not (is_full b)
        then ok (record b { peers = b.peers ++ (peer ∷ []) }, new_peer_added)
        else elim (find_eviction_candidate b) [
          | none ↦ err tt
          | some idx ↦ do
            (_, rest) ← remove_at idx b.peers
            ok (record b { peers = rest ++ (peer ∷ []) }, evicted)
        ]
  ]

  unfoldable pub remove_peer :
      KBucket → PeerId → Outcome (Unit {0}) (KBucket × Option (PeerInfo float))
  remove_peer b id = elim (position id b.peers) [
    | none ↦ ok (b, none)
    | some idx ↦ do (p, rest) ← remove_at idx b.peers; ok (record b { peers = rest }, some p)
  ]

  -- A write through `get_mut`: the first peer with the id is changed.
  unfoldable pub modify :
      PeerId → (PeerInfo float → PeerInfo float) → List (PeerInfo float) → List (PeerInfo float)
  modify id f [] = []
  modify id f (p ∷ ps) = if id_eq p.peer_id id then f p ∷ ps else p ∷ modify id f ps
