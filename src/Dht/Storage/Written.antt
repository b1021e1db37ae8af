-- ===== src/Dht/Storage/Written.antt =====
-- What is put into the store of crates/ceky-dht/src/storage.rs is read again: from the cache, and from
-- the disk once the batch writer has run.
use mathlib.Core.List.{append-nil}
use ceky_p2p.Common.{
  ℕ, ◌<◌, ◌≡◌, refl, ◌∙◌, arith, true, none, some, gt→leb, List, [], ◌∷◌, ◌++◌, length,
  length-append, take, take_of_le,
}
use ceky_p2p.Common.Outcome.{ok}
use ceky_p2p.Crypto.PeerId.{id_eq}
use ceky_p2p.Dht.KBucket.Peers.{id_eq_iff}
use ceky_p2p.Dht.Entry.{StoredEntry, is_expired, encode, decode}
use ceky_p2p.Dht.Entry.Coding.{IsEntry, decode-encode_append}
use ceky_p2p.Dht.Storage.{Redb, PersistentStore, new_store, put, get, remove, flush, write_entries}

pub id_eq_refl : (k : List ℕ) → id_eq k k ≡ true
id_eq_refl k = (id_eq_iff k k).1 refl

module _ (redb : Redb) where
  open redb use {Database}

  get-write_entries_last :
      (db : Database) (es : List StoredEntry) (e : StoredEntry)
      → redb.get (write_entries redb db (es ++ (e ∷ []))) e.key ≡ some (encode e)
  unfolding write_entries
  get-write_entries_last db [] e =
      redb.get-insert_index (redb.insert db e.key (encode e)) e.expires_at e.key e.key
      ∙ redb.get-insert db e.key (encode e) e.key
      ∙ rw (id_eq_refl e.key) refl
  get-write_entries_last db (x ∷ es) e =
      get-write_entries_last
        (redb.insert_index (redb.insert db x.key (encode x)) x.expires_at x.key) es e

  -- A disk that holds the encoding of a live entry gives the entry.
  pub get_stored :
      (now : ℕ) (s : PersistentStore redb) (e : StoredEntry)
      → IsEntry e
      → now < e.expires_at
      → s.hot_cache e.key ≡ none
      → redb.get s.db e.key ≡ some (encode e)
      → (get redb now s e.key).1 ≡ some e
  unfolding get is_expired
  get_stored now s e fine live cold there =
      let encoded : decode (encode e) ≡ ok e =
        rw (← append-nil (encode e)) (decode-encode_append e [] fine) in
      rw (get, cold, there, encoded, gt→leb e.expires_at now live) refl

  -- An entry that has not expired is read right after it is put.
  pub get-put :
      (now : ℕ) (s : PersistentStore redb) (e : StoredEntry)
      → now < e.expires_at
      → (get redb now (put redb s e) e.key).1 ≡ some e
  unfolding get put is_expired
  get-put now s e live = rw (get, id_eq_refl e.key, gt→leb e.expires_at now live) refl

  -- Once the batch writer has taken all that is pending, an entry that was put last and has not expired
  -- is read by a node that starts anew on that disk.
  pub get-flush :
      (now size : ℕ) (s : PersistentStore redb) (e : StoredEntry)
      → IsEntry e
      → now < e.expires_at
      → length s.pending < size
      → (get redb now (new_store redb (flush redb size (put redb s e)).db) e.key).1 ≡ some e
  unfolding flush put new_store
  get-flush now size s e fine live all =
      let whole : take size (s.pending ++ (e ∷ [])) ≡ s.pending ++ (e ∷ []) =
        take_of_le size (s.pending ++ (e ∷ []))
          (omega (arith, length-append s.pending (e ∷ []), all)) in
      get_stored now (new_store redb (flush redb size (put redb s e)).db) e fine live refl
        (rw whole (get-write_entries_last s.db s.pending e))

  -- An entry that is removed before the batch writer has taken it comes back: once the writer has run,
  -- `get` gives it again.
  get-flush-remove :
      (now size : ℕ) (s : PersistentStore redb) (e : StoredEntry)
      → IsEntry e
      → now < e.expires_at
      → length s.pending < size
      → (get redb now (flush redb size (remove redb (put redb s e) e.key).0) e.key).1 ≡ some e
  unfolding flush put remove
  get-flush-remove now size s e fine live all =
      let whole : take size (s.pending ++ (e ∷ [])) ≡ s.pending ++ (e ∷ []) =
        take_of_le size (s.pending ++ (e ∷ []))
          (omega (arith, length-append s.pending (e ∷ []), all)) in
      get_stored now (flush redb size (remove redb (put redb s e) e.key).0) e fine live
        (rw (id_eq_refl e.key) refl)
        (rw whole (get-write_entries_last (redb.remove s.db e.key) s.pending e))
