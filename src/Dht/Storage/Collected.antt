-- ===== src/Dht/Storage/Collected.antt =====
-- What the eviction task of crates/ceky-dht/src/storage.rs removes.
use mathlib.Core.List.{Memᴰ, append_assoc}
use ceky_p2p.Common.{
  ℕ, ◌+◌, ◌≤◌, ◌<◌, ◌≡◌, refl, sym, subst, ap, ◌∙◌, arith, true, false, none, Bool, Option, List,
  [], ◌∷◌, ◌++◌, length, length-append, take, take_of_le, if◌then◌else◌,
}
use ceky_p2p.Crypto.PeerId.{id_eq}
use ceky_p2p.Dht.Entry.{StoredEntry, encode}
use ceky_p2p.Dht.Storage.{
  Redb, PersistentStore, put, get, flush, collect, remove_keys, write_entries, cache_remove,
}
use ceky_p2p.Dht.Storage.Written.{id_eq_refl}

module _ (redb : Redb) where
  open redb use {Database}

  -- Neither the cache nor the disk has the key.
  abbrev pub Gone : PersistentStore redb → List ℕ → Type 0
  Gone s key = (s.hot_cache key ≡ none) × (redb.get s.db key ≡ none)

  get-Gone :
      (now : ℕ) (s : PersistentStore redb) (key : List ℕ)
      → Gone s key
      → (get redb now s key).1 ≡ none
  unfolding get
  get-Gone now s key g = rw (get, g.0, g.1) refl

  none_or : {V : Type 0} (b : Bool) (o : Option V) → o ≡ none → (if b then none else o) ≡ none
  none_or true o e = refl
  none_or false o e = e

  disk_removed :
      (db : Database) (t : ℕ) (k key : List ℕ)
      → redb.get (redb.remove_index (redb.remove db k) t k) key
        ≡ (if id_eq k key then none else redb.get db key)
  disk_removed db t k key =
      redb.get-remove_index (redb.remove db k) t k key ∙ redb.get-remove db k key

  -- The state after one key is removed.
  abbrev without : ℕ × List ℕ → PersistentStore redb → PersistentStore redb
  without e s = record s {
    db = redb.remove_index (redb.remove s.db e.1) e.0 e.1;
    hot_cache = cache_remove s.hot_cache e.1;
  }

  without-Gone :
      (e : ℕ × List ℕ) (s : PersistentStore redb) (key : List ℕ)
      → Gone s key
      → Gone (without e s) key
  without-Gone e s key g = (
    none_or (id_eq e.1 key) (s.hot_cache key) g.0,
    disk_removed s.db e.0 e.1 key ∙ none_or (id_eq e.1 key) (redb.get s.db key) g.1,
  )

  without-Gone_self :
      (e : ℕ × List ℕ) (s : PersistentStore redb) (key : List ℕ)
      → key ≡ e.1
      → Gone (without e s) key
  without-Gone_self e s key same =
      let test : id_eq e.1 key ≡ true = rw same (id_eq_refl e.1) in
      (rw test refl, disk_removed s.db e.0 e.1 key ∙ rw test refl)

  remove_keys-Gone :
      (es : List (ℕ × List ℕ)) (s : PersistentStore redb) (key : List ℕ)
      → Gone s key
      → Gone (remove_keys redb es s) key
  unfolding remove_keys
  remove_keys-Gone [] s key g = g
  remove_keys-Gone (e ∷ es) s key g = remove_keys-Gone es (without e s) key (without-Gone e s key g)

  remove_keys-Gone_of_mem :
      (t : ℕ) (key : List ℕ) (es : List (ℕ × List ℕ)) (s : PersistentStore redb)
      → Memᴰ (t, key) es
      → Gone (remove_keys redb es s) key
  unfolding remove_keys
  remove_keys-Gone_of_mem t key [] s m = elim m [ ]
  remove_keys-Gone_of_mem t key (e ∷ es) s (Memᴰ.head same) =
      remove_keys-Gone es (without e s) key (without-Gone_self e s key (ap (λ x. x.1) same))
  remove_keys-Gone_of_mem t key (e ∷ es) s (Memᴰ.tail m) =
      remove_keys-Gone_of_mem t key es (without e s) m

  range-write_entries :
      (x : ℕ × List ℕ) (now : ℕ) (es : List StoredEntry) (db : Database)
      → Memᴰ x (redb.range db now)
      → Memᴰ x (redb.range (write_entries redb db es) now)
  unfolding write_entries
  range-write_entries x now [] db m = m
  range-write_entries x now (e ∷ es) db m =
      range-write_entries x now es
        (redb.insert_index (redb.insert db e.key (encode e)) e.expires_at e.key)
        (redb.range-keeps (redb.insert db e.key (encode e)) e.expires_at e.key x now (
          subst (λ (l : List (ℕ × List ℕ)). Memᴰ x l)
            (sym (redb.range-insert db e.key (encode e) now)) m))

  -- An entry that is written stays in the index until it is collected.
  range-written :
      (now : ℕ) (es : List StoredEntry) (e : StoredEntry) (rest : List StoredEntry) (db : Database)
      → e.expires_at ≤ now
      → Memᴰ (e.expires_at, e.key) (redb.range (write_entries redb db (es ++ (e ∷ rest))) now)
  unfolding write_entries
  range-written now [] e rest db due =
      range-write_entries (e.expires_at, e.key) now rest
        (redb.insert_index (redb.insert db e.key (encode e)) e.expires_at e.key)
        (redb.range-insert_index (redb.insert db e.key (encode e)) e.expires_at e.key now due)
  range-written now (x ∷ es) e rest db due =
      range-written now es e rest
        (redb.insert_index (redb.insert db x.key (encode x)) x.expires_at x.key) due

  -- An entry that is put again with a later time is lost when its first time passes: once both are
  -- written and the eviction task has run, the key is in neither the cache nor the disk, however late
  -- the second one expires.
  pub collect-forgets_renewed :
      (now later size : ℕ) (s : PersistentStore redb) (e renewed : StoredEntry)
      → renewed.key ≡ e.key
      → e.expires_at ≤ now
      → length s.pending + 1 < size
      → (get redb later
          (collect redb now (flush redb size (put redb (put redb s e) renewed)))
          e.key).1
        ≡ none
  unfolding collect flush put
  collect-forgets_renewed now later size s e renewed same due all =
      let both = s.pending ++ (e ∷ (renewed ∷ [])) in
      let regroup : (s.pending ++ (e ∷ [])) ++ (renewed ∷ []) ≡ both =
        append_assoc s.pending (e ∷ []) (renewed ∷ []) in
      let whole : take size both ≡ both =
        take_of_le size both (omega (arith, length-append s.pending (e ∷ (renewed ∷ [])), all)) in
      get-Gone later (collect redb now (flush redb size (put redb (put redb s e) renewed))) e.key (
        remove_keys-Gone_of_mem e.expires_at e.key
          (redb.range (flush redb size (put redb (put redb s e) renewed)).db now)
          (flush redb size (put redb (put redb s e) renewed))
          (rw (regroup, whole) (range-written now s.pending e (renewed ∷ []) s.db due)))
