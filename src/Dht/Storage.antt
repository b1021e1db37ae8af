-- ===== src/Dht/Storage.antt =====
-- `PersistentStore` of crates/ceky-dht/src/storage.rs: a hot cache before a database, and writes that
-- wait in a queue. The database, the crate redb, is a parameter; the cache is a function; what a
-- background task does at once is one step.
pub mod Written
pub mod Collected
pub mod Provenance
mod Tests
use mathlib.Core.List.{Memᴰ}
use ceky_p2p.Common.{
  ℕ, ◌≤◌, ◌≡◌, Bool, true, false, Option, none, some, List, [], ◌∷◌, ◌++◌, if◌then◌else◌, take,
  drop,
}
use ceky_p2p.Common.Outcome.{Outcome, ok, err, panic}
use ceky_p2p.Crypto.PeerId.{id_eq}
use ceky_p2p.Dht.Entry.{StoredEntry, is_expired, encode, decode}
use ceky_p2p.Dht.Routing.{DhtError}

-- The tables dht_data and expire_index of a redb database, as a committed transaction leaves them.
pub record Redb : Type 1 where
  pub Database : Type 0
  pub empty : Database
  pub get : Database → List ℕ → Option (List ℕ)
  pub insert : Database → List ℕ → List ℕ → Database
  pub remove : Database → List ℕ → Database
  -- The entries of expire_index with a time of at most the given one.
  pub range : Database → ℕ → List (ℕ × List ℕ)
  pub insert_index : Database → ℕ → List ℕ → Database
  pub remove_index : Database → ℕ → List ℕ → Database
  pub get-empty : (k : List ℕ) → get empty k ≡ none
  pub get-insert :
      (d : Database) (k v j : List ℕ)
      → get (insert d k v) j ≡ (if id_eq k j then some v else get d j)
  pub get-remove :
      (d : Database) (k j : List ℕ) → get (remove d k) j ≡ (if id_eq k j then none else get d j)
  pub get-insert_index :
      (d : Database) (t : ℕ) (k j : List ℕ) → get (insert_index d t k) j ≡ get d j
  pub get-remove_index :
      (d : Database) (t : ℕ) (k j : List ℕ) → get (remove_index d t k) j ≡ get d j
  pub range-insert_index :
      (d : Database) (t : ℕ) (k : List ℕ) (now : ℕ)
      → t ≤ now
      → Memᴰ (t, k) (range (insert_index d t k) now)
  pub range-keeps :
      (d : Database) (t : ℕ) (k : List ℕ) (e : ℕ × List ℕ) (now : ℕ)
      → Memᴰ e (range d now)
      → Memᴰ e (range (insert_index d t k) now)
  pub range-insert :
      (d : Database) (k v : List ℕ) (now : ℕ) → range (insert d k v) now ≡ range d now

abbrev pub Cache : Type 0
Cache = List ℕ → Option StoredEntry

-- `DashMap::insert` and `DashMap::remove`
abbrev pub cache_insert : Cache → List ℕ → StoredEntry → Cache
cache_insert cache key e j = if id_eq key j then some e else cache j

abbrev pub cache_remove : Cache → List ℕ → Cache
cache_remove cache key j = if id_eq key j then none else cache j

module _ (redb : Redb) where
  open redb use {Database}

  pub record PersistentStore : Type 0 where
    pub hot_cache : Cache
    pub db : Database
    -- The entries sent to the batch writer and not yet received.
    pub pending : List StoredEntry

  pub new_store : Database → PersistentStore
  new_store db = record { hot_cache = λ key. none; db = db; pending = [] }

  pub put : PersistentStore → StoredEntry → PersistentStore
  put s e = record s {
    hot_cache = cache_insert s.hot_cache e.key e;
    pending = s.pending ++ (e ∷ []);
  }

  -- What is read from the disk goes into the cache, unless it has expired or cannot be read.
  from_disk :
      ℕ
      → PersistentStore
      → List ℕ
      → Outcome DhtError StoredEntry
      → PersistentStore × Option StoredEntry
  unfolding is_expired
  from_disk now s key (ok e) =
      if is_expired now e
      then (s, none)
      else (record s { hot_cache = cache_insert s.hot_cache key e }, some e)
  from_disk now s key (err x) = (s, none)
  from_disk now s key panic = (s, none)

  pub get : ℕ → PersistentStore → List ℕ → PersistentStore × Option StoredEntry
  unfolding from_disk
  get now s key = elim (s.hot_cache key) [
    | some e ↦ (s, (if is_expired now e then none else some e))
    | none ↦ elim (redb.get s.db key) [
      | none ↦ (s, none)
      | some value ↦ from_disk now s key (decode value)
    ]
  ]

  pub remove : PersistentStore → List ℕ → PersistentStore × Option StoredEntry
  remove s key = (
    record s { hot_cache = cache_remove s.hot_cache key; db = redb.remove s.db key },
    s.hot_cache key,
  )

  -- The transaction of one batch.
  pub write_entries : Database → List StoredEntry → Database
  write_entries db [] = db
  write_entries db (e ∷ es) =
      write_entries (redb.insert_index (redb.insert db e.key (encode e)) e.expires_at e.key) es

  -- The batch writer takes a batch of the given size off the queue.
  pub flush : ℕ → PersistentStore → PersistentStore
  unfolding write_entries
  flush size s = record s {
    db = write_entries s.db (take size s.pending);
    pending = drop size s.pending;
  }

  pub remove_keys : List (ℕ × List ℕ) → PersistentStore → PersistentStore
  remove_keys [] s = s
  remove_keys (e ∷ es) s = remove_keys es (record s {
    db = redb.remove_index (redb.remove s.db e.1) e.0 e.1;
    hot_cache = cache_remove s.hot_cache e.1;
  })

  -- One round of the eviction task.
  pub collect : ℕ → PersistentStore → PersistentStore
  unfolding remove_keys
  collect now s = remove_keys (redb.range s.db now) s
