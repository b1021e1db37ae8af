-- ===== src/Dht/Lookup/Covered.antt =====
-- The step by which an iterative lookup of crates/ceky-dht/src/operations.rs takes up one more peer: it
-- keeps the entries sorted and without repeats, and drops none that is closer than one that it keeps.
use ceky_p2p.Common.{
  ℕ, ◌*◌, ◌≤◌, ◌<◌, ◌≡◌, refl, sym, ◌∙◌, ap, arith, true, false, ◌||◌, subst, ◌⊎◌, inl, inr, List,
  [], ◌∷◌, ◌++◌, length, length-append, length-take, take, drop, length-drop, All-drop,
  take-append-drop, All, All-append, All-take, Bool-cases,
}
use ceky_p2p.Common.Sort.{
  sort_by, IsSorted, Above, bytes_le, bytes_le_trans, sort_by-IsSorted, All-sort_by, any-sort_by,
  length-sort_by, take-IsSorted, take-drop-Above,
}
use ceky_p2p.Crypto.PeerId.{PeerId, id_eq, xor_distance}
use ceky_p2p.Dht.KBucket.{k}
use ceky_p2p.Dht.KBucket.Peers.{id_eq_iff}
use ceky_p2p.Dht.Lookup.{PeerEntry, has_entry}
use ceky_p2p.Dht.Lookup.Known.{
  key, DistinctEntries, any-append, sort_by-Distinct, append-Distinct, snoc-Distinct,
}

-- The distances are from the target.
abbrev pub Measured : PeerId → List PeerEntry → Type 0
Measured target ps = All (λ p. p.distance ≡ xor_distance p.peer_id target) ps

-- No entry is farther from the target than the distance.
abbrev pub Within : List ℕ → List PeerEntry → Type 0
Within d ps = All (λ p. bytes_le p.distance d ≡ true) ps

unfoldable pub IsKnown : PeerId → List PeerEntry → Type 0
IsKnown target ps = (length ps ≤ k * 3) × IsSorted key ps × Measured target ps × DistinctEntries ps

-- A peer is among the entries, or they are full and none of them is farther from the target.
unfoldable pub Covered : PeerId → List PeerEntry → PeerId → Type 0
Covered target ps id =
    (has_entry id ps ≡ true) ⊎ ((length ps ≡ k * 3) × Within (xor_distance id target) ps)

pub All-map :
    {P Q : PeerEntry → Type 0} (ps : List PeerEntry)
    → ((p : PeerEntry) → P p → Q p)
    → All P ps
    → All Q ps
All-map [] f a = tt
All-map (p ∷ ps) f a = (f p a.0, All-map ps f a.1)

-- What holds of every distance holds of that of an entry that is found.
pub All-has_entry :
    (target id : PeerId) (ps : List PeerEntry) (P : List ℕ → Type 0)
    → has_entry id ps ≡ true
    → Measured target ps
    → All (λ p. P p.distance) ps
    → P (xor_distance id target)
All-has_entry target id [] P h d a = cc
All-has_entry target id (p ∷ ps) P h d a = elim (Bool-cases (id_eq p.peer_id id)) [
  | inl here ↦
      let same : p.distance ≡ xor_distance id target =
        d.0 ∙ ap (λ (x : PeerId). xor_distance x target) ((id_eq_iff p.peer_id id).0 here) in
      rw (← same) a.0
  | inr later ↦ All-has_entry target id ps P (ground (arith, h, later)) d.1 a.1
]

pub has_entry-length : (id : PeerId) (ps : List PeerEntry) → has_entry id ps ≡ true → 0 < length ps
has_entry-length id [] h = cc
has_entry-length id (p ∷ ps) h = omega arith

abbrev pub cut : List PeerEntry → List PeerEntry
cut ps = take (k * 3) (sort_by key ps)

abbrev pub cut_off : List PeerEntry → List PeerEntry
cut_off ps = drop (k * 3) (sort_by key ps)

cut-full : (ps : List PeerEntry) → 0 < length (cut_off ps) → length (cut ps) ≡ k * 3
cut-full ps h =
    omega (arith, length-drop (k * 3) (sort_by key ps), length-take (k * 3) (sort_by key ps), h)

has_entry-cut :
    (id : PeerId) (ps : List PeerEntry)
    → has_entry id ps ≡ has_entry id (cut ps) || has_entry id (cut_off ps)
has_entry-cut id ps =
    sym (any-sort_by key (λ p. id_eq p.peer_id id) ps)
    ∙ sym (ap (has_entry id) (take-append-drop (k * 3) (sort_by key ps)))
    ∙ any-append (λ p. id_eq p.peer_id id) (cut ps) (cut_off ps)

-- The entries kept are within the distance of each that is cut off.
Within-cut :
    (target id : PeerId) (ps : List PeerEntry)
    → Measured target ps
    → has_entry id (cut_off ps) ≡ true
    → Within (xor_distance id target) (cut ps)
Within-cut target id ps d h =
    let sorted = sort_by key ps in
    let d' =
      All-drop (λ p. p.distance ≡ xor_distance p.peer_id target) (k * 3) sorted
        (All-sort_by key (λ p. p.distance ≡ xor_distance p.peer_id target) ps d) in
    All-map (cut ps)
      (λ p a. All-has_entry target id (cut_off ps) (λ e. bytes_le p.distance e ≡ true) h d' a)
      (take-drop-Above key (k * 3) sorted (sort_by-IsSorted key ps))

-- Sorting and cutting a list keeps every peer of it covered.
cut-Covered :
    (target id : PeerId) (ps : List PeerEntry)
    → Measured target ps
    → has_entry id ps ≡ true
    → Covered target (cut ps) id
unfolding Covered
cut-Covered target id ps d h = elim (Bool-cases (has_entry id (cut ps))) [
  | inl stays ↦ inl stays
  | inr goes ↦
      let out : has_entry id (cut_off ps) ≡ true = ground (arith, has_entry-cut id ps, h, goes) in
      inr (cut-full ps (has_entry-length id (cut_off ps) out), Within-cut target id ps d out)
]

-- The entries other than that of one peer are within a distance.
abbrev WithinBut : List ℕ → PeerId → List PeerEntry → Type 0
WithinBut d id ps = All (λ p. (bytes_le p.distance d ≡ true) ⊎ (id_eq p.peer_id id ≡ true)) ps

WithinBut-without :
    (d : List ℕ) (id : PeerId) (ps : List PeerEntry)
    → WithinBut d id ps
    → has_entry id ps ≡ false
    → Within d ps
WithinBut-without d id [] a h = tt
WithinBut-without d id (p ∷ ps) a h = (
  elim a.0 [ inl le ↦ le | inr same ↦ absurd (ground (arith, h, same)) ],
  WithinBut-without d id ps a.1 (ground (arith, h)),
)

Above-Within :
    (d : List ℕ) (left kept : List PeerEntry)
    → 0 < length left
    → Within d left
    → All (λ p. Above key p.distance left) kept
    → Within d kept
Above-Within d [] kept h w a = absurd (omega arith)
Above-Within d (z ∷ zs) kept h w a =
    All-map kept (λ p above. bytes_le_trans p.distance z.distance d above.0 w.0) a

elsewhere :
    (ps qs : List PeerEntry)
    → ((id : PeerId) → has_entry id qs ≡ true → has_entry id ps ≡ false)
    → (id : PeerId) → has_entry id ps ≡ true
    → has_entry id qs ≡ false
elsewhere ps qs apart id h = elim (Bool-cases (has_entry id qs)) [
  | inl both ↦ cc (apart id both, h)
  | inr absent ↦ absent
]

-- One more entry pushes none out that is closer than what stays.
snoc-Within :
    (target : PeerId) (d : List ℕ) (ps : List PeerEntry) (e : PeerEntry)
    → DistinctEntries (ps ++ (e ∷ []))
    → 0 < length (cut_off (ps ++ (e ∷ [])))
    → Within d ps
    → Within d (cut (ps ++ (e ∷ [])))
snoc-Within target d ps e dis full w =
    let qs = ps ++ (e ∷ []) in
    let Q : PeerEntry → Type 0 =
      λ p. (bytes_le p.distance d ≡ true) ⊎ (id_eq p.peer_id e.peer_id ≡ true) in
    let all_but : All Q (sort_by key qs) = All-sort_by key Q qs (
      All-append Q ps (e ∷ []) (All-map ps (λ p le. inl le) w)
        (inr ((id_eq_iff e.peer_id e.peer_id).1 refl), tt)) in
    elim (Bool-cases (has_entry e.peer_id (cut qs))) [
      | inr absent ↦
          WithinBut-without d e.peer_id (cut qs) (All-take Q (k * 3) (sort_by key qs) all_but)
            absent
      | inl present ↦
          let parts : DistinctEntries (cut qs ++ cut_off qs) =
            subst DistinctEntries (sym (take-append-drop (k * 3) (sort_by key qs)))
              (sort_by-Distinct qs dis) in
          let absent : has_entry e.peer_id (cut_off qs) ≡ false =
            elsewhere (cut qs) (cut_off qs) (append-Distinct (cut qs) (cut_off qs) parts).1
              e.peer_id present in
          Above-Within d (cut_off qs) (cut qs) full
            (WithinBut-without d e.peer_id (cut_off qs)
              (All-drop Q (k * 3) (sort_by key qs) all_but) absent)
            (take-drop-Above key (k * 3) (sort_by key qs) (sort_by-IsSorted key qs))
    ]

-- The entry that `add_peer` makes.
abbrev pub entry_of : PeerId → PeerEntry → PeerEntry
entry_of target p = record {
  peer_id = p.peer_id;
  addr = p.addr;
  distance = xor_distance p.peer_id target;
}

-- What `add_peer` does where the peer is new.
abbrev pub added : PeerId → List PeerEntry → PeerEntry → List PeerEntry
added target ps p = cut (ps ++ (entry_of target p ∷ []))

pub added-IsKnown :
    (target : PeerId) (ps : List PeerEntry) (p : PeerEntry)
    → IsKnown target ps
    → has_entry p.peer_id ps ≡ false
    → IsKnown target (added target ps p)
unfolding IsKnown
added-IsKnown target ps p h new =
    let qs = ps ++ (entry_of target p ∷ []) in
    let sorted = sort_by key qs in
    let M : PeerEntry → Type 0 = λ q. q.distance ≡ xor_distance q.peer_id target in
    (
      omega (arith, length-take (k * 3) sorted),
      take-IsSorted key (k * 3) sorted (sort_by-IsSorted key qs),
      All-take M (k * 3) sorted
          (All-sort_by key M qs (All-append M ps (entry_of target p ∷ []) h.2 (refl, tt))),
      (append-Distinct (cut qs) (cut_off qs) (
          subst DistinctEntries (sym (take-append-drop (k * 3) sorted))
            (sort_by-Distinct qs (snoc-Distinct ps (entry_of target p) new h.3)))).0,
    )

pub added-Covered :
    (target id : PeerId) (ps : List PeerEntry) (p : PeerEntry)
    → IsKnown target ps
    → has_entry p.peer_id ps ≡ false
    → Covered target ps id ⊎ (id ≡ p.peer_id)
    → Covered target (added target ps p) id
unfolding IsKnown Covered
added-Covered target id ps p h new c =
    let qs = ps ++ (entry_of target p ∷ []) in
    let M : PeerEntry → Type 0 = λ q. q.distance ≡ xor_distance q.peer_id target in
    let measured = All-append M ps (entry_of target p ∷ []) h.2 (refl, tt) in
    let old_or_new = any-append (λ q. id_eq q.peer_id id) ps (entry_of target p ∷ []) in
    elim c [
      | inl (inl found) ↦ cut-Covered target id qs measured (ground (arith, old_or_new, found))
      | inr same ↦
          cut-Covered target id qs measured
            (ground (arith, old_or_new, (id_eq_iff p.peer_id id).1 (sym same)))
      | inl (inr (full, w)) ↦
          let left : 0 < length (cut_off qs) = omega (
            arith,
            length-drop (k * 3) (sort_by key qs),
            length-sort_by key qs,
            length-append ps (entry_of target p ∷ []),
            full,
          ) in
          inr (
            cut-full qs left,
            snoc-Within target (xor_distance id target) ps (entry_of target p)
                (snoc-Distinct ps (entry_of target p) new h.3) left w,
          )
    ]
