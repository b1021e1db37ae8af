-- ===== src/Dht/KBucket/Peers.antt =====
-- The list of peers of one bucket of crates/ceky-dht/src/routing.rs: finding, removing and changing a
-- peer by its id.

use ceky_p2p.Common.{
  ℕ, zero, suc, ◌<◌, ◌≡◌, ◌↔◌, refl, ◌∙◌, ap, arith, Bool, true, false, ◌||◌, Option, none, some,
  List, [], ◌∷◌, ◌++◌, length, set, get_elem?, take, drop,
}
use mathlib.Core.Option
use mathlib.Core.Option.{some-injective}
use ceky_p2p.Common.Outcome.{ok}
use ceky_p2p.Crypto.PeerId.{PeerId, id_eq}
use ceky_p2p.Common.Float.{Float}
use ceky_p2p.Dht.PeerInfo.{PeerInfo}
use ceky_p2p.Dht.KBucket.{remove_at, position}

pub id_eq_iff : (a b : PeerId) → (id_eq a b ≡ true) ↔ (a ≡ b)
unfolding id_eq
id_eq_iff [] [] = (λ e. refl, λ e. refl)
id_eq_iff [] (y ∷ ys) = (λ e. cc, λ e. cc)
id_eq_iff (x ∷ xs) [] = (λ e. cc, λ e. cc)
id_eq_iff (x ∷ xs) (y ∷ ys) = ground (arith, id_eq_iff xs ys)

pub id_eq_self : (a : PeerId) → id_eq a a ≡ true
id_eq_self a = (id_eq_iff a a).1 refl

module _ (float : Float) where
  -- Whether a peer with the id is in the list.
  unfoldable pub has : PeerId → List (PeerInfo float) → Bool
  has id [] = false
  has id (p ∷ ps) = id_eq p.peer_id id || has id ps

  -- No two peers have the same id.
  abbrev pub Distinct : List (PeerInfo float) → Type 0
  Distinct [] = Unit {0}
  Distinct (p ∷ ps) = (has p.peer_id ps ≡ false) × Distinct ps

  pub has-append :
      (id : PeerId) (ps qs : List (PeerInfo float)) → has id (ps ++ qs) ≡ has id ps || has id qs
  unfolding has
  has-append id [] qs = refl
  has-append id (p ∷ ps) qs = ground (arith, has-append id ps qs)

  pub position-none :
      (id : PeerId) (ps : List (PeerInfo float)) → position float id ps ≡ none → has id ps ≡ false
  unfolding position has
  position-none id [] e = refl
  position-none id (p ∷ ps) e = ground (arith, position-none id ps)

  pub Distinct-snoc :
      (ps : List (PeerInfo float)) (q : PeerInfo float)
      → Distinct ps
      → has q.peer_id ps ≡ false
      → Distinct (ps ++ (q ∷ []))
  unfolding has
  Distinct-snoc [] q d h = (refl, tt)
  Distinct-snoc (p ∷ ps) q d h = (
    ground (
      arith,
      has-append p.peer_id ps (q ∷ []),
      id_eq_iff q.peer_id p.peer_id,
      id_eq_iff p.peer_id q.peer_id,
    ),
    Distinct-snoc ps q d.1 (ground arith),
  )

  -- What `Vec::remove` does to a list of distinct ids, at an index in range.
  pub remove_at_lem :
      {E : Type 0} (i : ℕ) (ps : List (PeerInfo float))
      → i < length ps
      → (p : PeerInfo float) × (rest : List (PeerInfo float)) × (remove_at {E = E} i ps
          ≡ ok (p, rest))
        × (get_elem? ps i ≡ some p)
        × (suc (length rest) ≡ length ps)
        × ((id : PeerId) → has id ps ≡ id_eq p.peer_id id || has id rest)
        × (Distinct ps → Distinct rest × (has p.peer_id rest ≡ false))
  unfolding remove_at has
  remove_at_lem i [] h = absurd (omega arith)
  remove_at_lem zero (p ∷ ps) h = (p, ps, refl, refl, refl, λ id. refl, λ d. (d.1, d.0))
  remove_at_lem {E} (suc i) (q ∷ ps) h =
      let (p, rest, e, g, len, hs, ds) = remove_at_lem {E = E} i ps (omega arith) in
      (
        p,
        q ∷ rest,
        rw e,
        g,
        ap suc len,
        λ id. ground (arith, hs id),
        λ d. ground (
          arith,
          ds d.1,
          hs q.peer_id,
          id_eq_iff p.peer_id q.peer_id,
          id_eq_iff q.peer_id p.peer_id,
        ),
      )

  -- The list without its place i.
  abbrev pub without : ℕ → List (PeerInfo float) → List (PeerInfo float)
  without i ps = take i ps ++ drop (suc i) ps

  pub remove_at-rest :
      {E : Type 0} (i : ℕ) (ps : List (PeerInfo float)) (p : PeerInfo float)
      → get_elem? ps i ≡ some p
      → remove_at {E = E} i ps ≡ ok (p, without i ps)
  unfolding remove_at
  remove_at-rest i [] p g = cc
  remove_at-rest zero (q ∷ ps) p g = rw (some-injective q p g) refl
  remove_at-rest {E} (suc i) (q ∷ ps) p g = rw (remove_at-rest {E = E} i ps p g) refl

  -- A write changes only its own place.
  pub set-rest :
      (i : ℕ) (ps : List (PeerInfo float)) (q : PeerInfo float)
      → without i (set ps i q) ≡ without i ps
  set-rest i [] q = refl
  set-rest zero (p ∷ ps) q = refl
  set-rest (suc i) (p ∷ ps) q = ap (λ (rest : List (PeerInfo float)). p ∷ rest) (set-rest i ps q)

  pub has-set :
      (id : PeerId) (ps : List (PeerInfo float)) (i : ℕ) (p q : PeerInfo float)
      → get_elem? ps i ≡ some p
      → q.peer_id ≡ p.peer_id
      → has id (set ps i q) ≡ has id ps
  unfolding has
  has-set id [] i p q g e = refl
  has-set id (r ∷ ps) zero p q g e = ap (λ (x : PeerId). id_eq x id || has id ps) (e ∙ cc)
  has-set id (r ∷ ps) (suc i) p q g e = rw (has-set id ps i p q g e)

  pub Distinct-set :
      (ps : List (PeerInfo float)) (i : ℕ) (p q : PeerInfo float)
      → get_elem? ps i ≡ some p
      → q.peer_id ≡ p.peer_id
      → Distinct ps
      → Distinct (set ps i q)
  unfolding has
  Distinct-set [] i p q g e d = d
  Distinct-set (r ∷ ps) zero p q g e d = (ap (λ (x : PeerId). has x ps) (e ∙ cc) ∙ d.0, d.1)
  Distinct-set (r ∷ ps) (suc i) p q g e d =
      (has-set r.peer_id ps i p q g e ∙ d.0, Distinct-set ps i p q g e d.1)

  pub get_elem?-set :
      (ps : List (PeerInfo float)) (i : ℕ) (q : PeerInfo float)
      → i < length ps
      → get_elem? (set ps i q) i ≡ some q
  get_elem?-set [] i q h = absurd (omega arith)
  get_elem?-set (r ∷ ps) zero q h = refl
  get_elem?-set (r ∷ ps) (suc i) q h = get_elem?-set ps i q (omega arith)

  pub has-get_elem? :
      (ps : List (PeerInfo float)) (i : ℕ) (p : PeerInfo float)
      → get_elem? ps i ≡ some p
      → has p.peer_id ps ≡ true
  unfolding has
  has-get_elem? [] i p g = cc
  has-get_elem? (r ∷ ps) zero p g = ground (
    arith,
    id_eq_iff r.peer_id p.peer_id,
    ap (λ (x : Option (PeerInfo float)). Option.map (λ y. y.peer_id) x) g,
  )
  has-get_elem? (r ∷ ps) (suc i) p g = ground (arith, has-get_elem? ps i p g)
