-- ===== src/Dht/Lookup/Tests.antt =====
-- An iterative lookup of crates/ceky-dht/src/operations.rs that hears of three peers.
use ceky_p2p.Common.{
  ℕ, ◌≡◌, ◌⊎◌, refl, arith, true, List, [], ◌∷◌, ◌++◌, map, replicate, length, All,
}
use ceky_p2p.Common.Sort.{sort_by, insert_by, bytes_le, IsSorted}
use ceky_p2p.Crypto.PeerId.{PeerId, id_eq, xor_distance}
use ceky_p2p.Dht.KBucket.{k, retain}
use ceky_p2p.Dht.Lookup.{
  PeerEntry, IterativeLookup, has_entry, contains, set_insert, add_peer, add_peers, new_lookup,
  mark_queried, next_to_query, process_responses, result,
}
use ceky_p2p.Dht.Lookup.Known.{key}
use ceky_p2p.Dht.Lookup.Covered.{Within}
use ceky_p2p.Dht.Lookup.History.{Run, Holds, Run-Holds, result-closest}
use ceky_p2p.Dht.Lookup.Converges.{Run-converges}

abbrev id_of : ℕ → PeerId
id_of n = replicate 31 0 ++ (n ∷ [])

abbrev entry : ℕ → PeerEntry
entry n = record { peer_id = id_of n; addr = n; distance = [] }

abbrev target : PeerId
target = id_of 66

abbrev seeds : List PeerEntry
seeds = entry 80 ∷ entry 68 ∷ []

abbrev first : IterativeLookup
first = new_lookup target seeds

abbrev second : IterativeLookup
second = process_responses (next_to_query first).1 (entry 67 ∷ entry 80 ∷ [])

abbrev last : IterativeLookup
last = (next_to_query (next_to_query (next_to_query second).1).1).1

abbrev seen : List PeerId
seen = (id_of 80 ∷ id_of 68 ∷ []) ++ (id_of 67 ∷ id_of 80 ∷ [])

abbrev known : List PeerId
known = id_of 80 ∷ id_of 68 ∷ id_of 67 ∷ []

asked_in_order : map (λ p. p.addr) (next_to_query second).0 ≡ 67 ∷ []
unfolding next_to_query process_responses add_peers add_peer new_lookup mark_queried set_insert
    retain sort_by insert_by bytes_le xor_distance id_eq
asked_in_order = refl

second-Run : Run target second seen
second-Run = Run.answered (entry 67 ∷ entry 80 ∷ []) (Run.asked (Run.started seeds))

last-Run : Run target last seen
last-Run = Run.asked (Run.asked (Run.asked second-Run))

Run-Holds_example : Holds second seen × (second.target ≡ target)
Run-Holds_example = Run-Holds second-Run

result-closest_example :
    IsSorted key (result second).closest
    × All
        (λ id.
          (has_entry id (result second).closest ≡ true)
          ⊎ ((length (result second).closest ≡ k)
              × Within (xor_distance id target) (result second).closest))
        seen
result-closest_example = result-closest second-Run

seen-known : All (λ i. contains known i ≡ true) seen
unfolding id_eq
seen-known = (refl, (refl, (refl, (refl, tt))))

last_round : last.round ≡ 4
unfolding next_to_query process_responses add_peers add_peer new_lookup mark_queried set_insert
    retain sort_by insert_by bytes_le xor_distance id_eq
last_round = refl

Run-converges_example : last.converged ≡ true
Run-converges_example = Run-converges known last-Run seen-known (omega (arith, last_round))
