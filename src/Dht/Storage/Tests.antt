-- ===== src/Dht/Storage/Tests.antt =====
-- The store of crates/ceky-dht/src/storage.rs over a database whose tables are a function and a list.
use mathlib.Core.List.{Memᴰ}
use ceky_p2p.Common.{
  ℕ, ◌≤◌, ◌<◌, ◌≡◌, refl, arith, ◌&&◌, Bool-cases, inl, inr, Option, none, some, List, [], ◌∷◌,
  ◌==◌, leb, le→leb, if◌then◌else◌, replicate, length,
}
use ceky_p2p.Common.Outcome.{err}
use ceky_p2p.Crypto.PeerId.{id_eq}
use ceky_p2p.Dht.Routing.{invalid_key}
use ceky_p2p.Dht.Entry.{StoredEntry, new_entry, decode}
use ceky_p2p.Dht.Entry.Coding.{IsEntry}
use ceky_p2p.Dht.Storage.{Redb, PersistentStore, new_store, put, get, flush, collect}
use ceky_p2p.Dht.Storage.Written.{get-put, get-flush}
use ceky_p2p.Dht.Storage.Collected.{collect-forgets_renewed}
use ceky_p2p.Dht.Storage.Provenance.{Run, get-IsKnown}

abbrev Tables : Type 0
Tables = (List ℕ → Option (List ℕ)) × List (ℕ × List ℕ)

abbrev due : ℕ → List (ℕ × List ℕ) → List (ℕ × List ℕ)
due now [] = []
due now (e ∷ es) = if leb e.0 now then e ∷ due now es else due now es

abbrev unlisted : ℕ → List ℕ → List (ℕ × List ℕ) → List (ℕ × List ℕ)
unlisted t k [] = []
unlisted t k (e ∷ es) = if (e.0 == t) && id_eq e.1 k then unlisted t k es else e ∷ unlisted t k es

due-head :
    (t : ℕ) (k : List ℕ) (es : List (ℕ × List ℕ)) (now : ℕ)
    → t ≤ now
    → Memᴰ (t, k) (due now ((t, k) ∷ es))
due-head t k es now h = rw (le→leb t now h) (Memᴰ.head refl)

due-tail :
    (x e : ℕ × List ℕ) (es : List (ℕ × List ℕ)) (now : ℕ)
    → Memᴰ e (due now es)
    → Memᴰ e (due now (x ∷ es))
due-tail x e es now m = elim (Bool-cases (leb x.0 now)) [
  | inl now_due ↦ rw now_due (Memᴰ.tail m)
  | inr later ↦ rw later m
]

abbrev tables : Redb
tables = record {
  Database = Tables;
  empty = (λ k. none, []);
  get = λ d k. d.0 k;
  insert = λ d k v. (λ j. if id_eq k j then some v else d.0 j, d.1);
  remove = λ d k. (λ j. if id_eq k j then none else d.0 j, d.1);
  range = λ d now. due now d.1;
  insert_index = λ d t k. (d.0, (t, k) ∷ d.1);
  remove_index = λ d t k. (d.0, unlisted t k d.1);
  get-empty = λ k. refl;
  get-insert = λ d k v j. refl;
  get-remove = λ d k j. refl;
  get-insert_index = λ d t k j. refl;
  get-remove_index = λ d t k j. refl;
  range-insert_index = λ d t k now h. due-head t k d.1 now h;
  range-keeps = λ d t k e now m. due-tail (t, k) e d.1 now m;
  range-insert = λ d k v now. refl;
}

-- Stored at second 100 for 50 seconds, and renewed at second 120.
abbrev entry : StoredEntry
entry = record {
  key = replicate 32 1;
  value = 7 ∷ 8 ∷ [];
  publisher = replicate 32 2;
  expires_at = 150;
}

abbrev renewed : StoredEntry
renewed = record entry { expires_at = 170 }

entry_made : new_entry 100 (replicate 32 1) (7 ∷ 8 ∷ []) (replicate 32 2) 50 ≡ entry
unfolding new_entry
entry_made = refl

short_payload : decode (replicate 75 0) ≡ err invalid_key
unfolding decode
short_payload = refl

entry-IsEntry : IsEntry entry
entry-IsEntry = record {
  key_bytes = refl;
  publisher_bytes = refl;
  time_bits = omega arith;
  value_short = omega arith;
}

abbrev fresh : PersistentStore tables
fresh = new_store tables (tables.empty)

put_is_read : (get tables 149 (put tables fresh entry) entry.key).1 ≡ some entry
put_is_read = get-put tables 149 fresh entry (omega arith)

nothing_pending : length fresh.pending ≡ 0
unfolding new_store
nothing_pending = refl

get-flush_example :
    (get tables 149 (new_store tables (flush tables 100 (put tables fresh entry)).db) entry.key).1
    ≡ some entry
get-flush_example =
    get-flush tables 149 100 fresh entry entry-IsEntry (omega arith)
      (omega (arith, nothing_pending))

collect-forgets_renewed_example :
    (get tables 160
      (collect tables 150 (flush tables 100 (put tables (put tables fresh entry) renewed)))
      entry.key).1
    ≡ none
collect-forgets_renewed_example =
    collect-forgets_renewed tables 150 160 100 fresh entry renewed refl (omega arith)
      (omega (arith, nothing_pending))

given : (get tables 149 (put tables fresh entry) entry.key).1 ≡ some entry
unfolding get put new_store id_eq
given = refl

get-IsKnown_example : Memᴰ entry (entry ∷ []) × (entry.key ≡ entry.key) × (149 < entry.expires_at)
get-IsKnown_example =
    get-IsKnown tables 149 entry.key entry (Run.putting entry entry-IsEntry Run.start) given
