-- ===== src/Dht/Storage/Provenance.antt =====
-- Where the entries come from that the store of crates/ceky-dht/src/storage.rs gives: its operations
-- as the steps of a run from an empty database.
use mathlib.Core.List.{Memᴰ, append-nil}
use ceky_p2p.Common.{
  ℕ, ◌<◌, ◌≡◌, refl, sym, ap, ◌∙◌, arith, Bool-cases, Option-cases, some, inl, inr, List, [], ◌∷◌,
  take, All, All-append, All-take, All-drop, leb,
}
use ceky_p2p.Common.Outcome.{ok}
use ceky_p2p.Crypto.PeerId.{id_eq}
use ceky_p2p.Dht.KBucket.Peers.{id_eq_iff}
use ceky_p2p.Dht.Entry.{StoredEntry, is_expired, encode, decode}
use ceky_p2p.Dht.Entry.Coding.{IsEntry, decode-encode_append}
use ceky_p2p.Dht.Storage.{
  Redb, PersistentStore, new_store, put, get, remove, flush, collect, remove_keys, write_entries,
  Cache, cache_insert, cache_remove,
}

-- An entry that was put.
abbrev Known : List StoredEntry → StoredEntry → Type 0
Known history e = IsEntry e × Memᴰ e history

abbrev Cached : List StoredEntry → Cache → Type 0
Cached history cache =
    (key : List ℕ) (e : StoredEntry) → cache key ≡ some e → Known history e × (e.key ≡ key)

Cached-insert :
    (history : List StoredEntry) (cache : Cache) (key : List ℕ) (e : StoredEntry)
    → Cached history cache
    → Known history e
    → e.key ≡ key
    → Cached history (cache_insert cache key e)
Cached-insert history cache key e c known same j f there = elim (Bool-cases (id_eq key j)) [
  | inl hit ↦
      let this : e ≡ f = cc (rw hit at there) in
      let place : key ≡ j = (id_eq_iff key j).0 hit in rw (← this) (known, same ∙ place)
  | inr other ↦ c j f (rw other at there)
]

Cached-remove :
    (history : List StoredEntry) (cache : Cache) (key : List ℕ)
    → Cached history cache
    → Cached history (cache_remove cache key)
Cached-remove history cache key c j f there = elim (Bool-cases (id_eq key j)) [
  | inl hit ↦ cc (rw hit at there)
  | inr other ↦ c j f (rw other at there)
]

module _ (redb : Redb) where
  open redb use {Database}

  -- A run from an empty database, with the entries put so far.
  pub data Run : PersistentStore redb → List StoredEntry → Type 0 where
    start : Run (new_store redb redb.empty) []
    putting :
        {s : PersistentStore redb} {history : List StoredEntry} (e : StoredEntry)
        → IsEntry e
        → Run s history
        → Run (put redb s e) (e ∷ history)
    getting :
        {s : PersistentStore redb} {history : List StoredEntry} (now : ℕ) (key : List ℕ)
        → Run s history
        → Run (get redb now s key).0 history
    removing :
        {s : PersistentStore redb} {history : List StoredEntry} (key : List ℕ)
        → Run s history
        → Run (remove redb s key).0 history
    flushing :
        {s : PersistentStore redb} {history : List StoredEntry} (size : ℕ)
        → Run s history
        → Run (flush redb size s) history
    collecting :
        {s : PersistentStore redb} {history : List StoredEntry} (now : ℕ)
        → Run s history
        → Run (collect redb now s) history

  abbrev Stored : List StoredEntry → Database → Type 0
  Stored history db =
      (key value : List ℕ)
      → redb.get db key ≡ some value
      → (e : StoredEntry) × Known history e × (e.key ≡ key) × (value ≡ encode e)

  record IsStore (s : PersistentStore redb) (history : List StoredEntry) : Type 0 where
    cached : Cached history s.hot_cache
    stored : Stored history s.db
    waiting : All (Known history) s.pending

  -- `get` keeps the store, and what it gives is known, has the key, and has not expired.
  get-IsStore :
      (now : ℕ) (s : PersistentStore redb) (history : List StoredEntry) (key : List ℕ)
      → IsStore s history
      → IsStore (get redb now s key).0 history
        × ((e : StoredEntry)
            → (get redb now s key).1 ≡ some e
            → Known history e × (e.key ≡ key) × (now < e.expires_at))
  unfolding get is_expired
  get-IsStore now s history key h = elim (Option-cases (s.hot_cache key)) [
    | inr (e, hit) ↦
        let (known, same) = h.cached key e hit in
        elim (Bool-cases (leb e.expires_at now)) [
          | inl old ↦ rw (get, hit, old) (h, λ f x. cc)
          | inr live ↦
              rw (get, hit, live)
                (h, λ f x. let this : e ≡ f = cc in rw (← this) (known, same, ground (arith, live)))
        ]
    | inl miss ↦ elim (Option-cases (redb.get s.db key)) [
      | inl none_there ↦ rw (get, miss, none_there) (h, λ f x. cc)
      | inr (value, there) ↦
          let (e, known, same, enc) = h.stored key value there in
          let decoded : decode value ≡ ok e =
            ap decode (enc ∙ sym (append-nil (encode e))) ∙ decode-encode_append e [] known.0 in
          elim (Bool-cases (leb e.expires_at now)) [
            | inl old ↦ rw (get, miss, there, decoded, old) (h, λ f x. cc)
            | inr live ↦
                rw (get, miss, there, decoded, live)
                  (
                    record {
                      cached = Cached-insert history s.hot_cache key e h.cached known same;
                      stored = h.stored;
                      waiting = h.waiting;
                    },
                    λ f x. let this : e ≡ f = cc in rw (← this) (known, same, ground (arith, live)),
                  )
          ]
    ]
  ]

  Stored-write_entries :
      (history : List StoredEntry) (es : List StoredEntry) (db : Database)
      → All (Known history) es
      → Stored history db
      → Stored history (write_entries redb db es)
  unfolding write_entries
  Stored-write_entries history [] db k h = h
  Stored-write_entries history (e ∷ es) db k h =
      Stored-write_entries history es
        (redb.insert_index (redb.insert db e.key (encode e)) e.expires_at e.key) k.1
        (λ key value there.
          let read =
            sym (
              redb.get-insert_index (redb.insert db e.key (encode e)) e.expires_at e.key key
              ∙ redb.get-insert db e.key (encode e) key)
            ∙ there in
          elim (Bool-cases (id_eq e.key key)) [
            | inl hit ↦ (e, k.0, (id_eq_iff e.key key).0 hit, cc (rw hit at read))
            | inr other ↦ h key value (rw other at read)
          ])

  Stored-remove :
      (history : List StoredEntry) (db : Database) (key : List ℕ)
      → Stored history db
      → Stored history (redb.remove db key)
  Stored-remove history db key h j value there =
      let read = sym (redb.get-remove db key j) ∙ there in
      elim (Bool-cases (id_eq key j)) [
        | inl hit ↦ cc (rw hit at read)
        | inr other ↦ h j value (rw other at read)
      ]

  remove_keys-IsStore :
      (es : List (ℕ × List ℕ)) (s : PersistentStore redb) (history : List StoredEntry)
      → IsStore s history
      → IsStore (remove_keys redb es s) history
  unfolding remove_keys
  remove_keys-IsStore [] s history h = h
  remove_keys-IsStore (e ∷ es) s history h =
      remove_keys-IsStore es
        (record s {
          db = redb.remove_index (redb.remove s.db e.1) e.0 e.1;
          hot_cache = cache_remove s.hot_cache e.1;
        })
        history
        (record {
          cached = Cached-remove history s.hot_cache e.1 h.cached;
          stored = λ key value there.
              Stored-remove history s.db e.1 h.stored key value
                (sym (redb.get-remove_index (redb.remove s.db e.1) e.0 e.1 key) ∙ there);
          waiting = h.waiting;
        })

  Known-more :
      (e : StoredEntry) (history es : List StoredEntry)
      → All (Known history) es
      → All (Known (e ∷ history)) es
  Known-more e history [] h = tt
  Known-more e history (x ∷ es) h = ((h.0.0, Memᴰ.tail h.0.1), Known-more e history es h.1)

  Run-IsStore :
      {s : PersistentStore redb} {history : List StoredEntry} → Run s history → IsStore s history
  unfolding new_store put remove flush collect
  Run-IsStore start = record {
    cached = λ key e there. cc;
    stored = λ key value there. cc (redb.get-empty key);
    waiting = tt;
  }
  Run-IsStore {s} {history} (putting {s = t} {history = past} e fine run) =
      let h = Run-IsStore run in
      record {
        cached =
            Cached-insert (e ∷ past) t.hot_cache e.key e
              (λ key f there.
                let (known, same) = h.cached key f there in ((known.0, Memᴰ.tail known.1), same))
              (fine, Memᴰ.head refl) refl;
        stored = λ key value there.
            let (f, known, same, enc) = h.stored key value there in
            (f, (known.0, Memᴰ.tail known.1), same, enc);
        waiting =
            All-append (Known (e ∷ past)) t.pending (e ∷ []) (Known-more e past t.pending h.waiting)
              ((fine, Memᴰ.head refl), tt);
      }
  Run-IsStore (getting {s = t} {history = past} now key run) =
      (get-IsStore now t past key (Run-IsStore run)).0
  Run-IsStore (removing {s = t} {history = past} key run) =
      let h = Run-IsStore run in
      record {
        cached = Cached-remove past t.hot_cache key h.cached;
        stored = Stored-remove past t.db key h.stored;
        waiting = h.waiting;
      }
  Run-IsStore (flushing {s = t} {history = past} size run) =
      let h = Run-IsStore run in
      record {
        cached = h.cached;
        stored =
            Stored-write_entries past (take size t.pending) t.db
              (All-take (Known past) size t.pending h.waiting) h.stored;
        waiting = All-drop (Known past) size t.pending h.waiting;
      }
  Run-IsStore (collecting {s = t} {history = past} now run) =
      remove_keys-IsStore (redb.range t.db now) t past (Run-IsStore run)

  -- In every run from an empty database, whatever is put, read, removed, written and evicted: an entry
  -- that `get` gives was put, is the entry of that key, and has not expired.
  pub get-IsKnown :
      {s : PersistentStore redb} {history : List StoredEntry} (now : ℕ) (key : List ℕ)
      (e : StoredEntry)
      → Run s history
      → (get redb now s key).1 ≡ some e
      → Memᴰ e history × (e.key ≡ key) × (now < e.expires_at)
  get-IsKnown {s} {history} now key e run given =
      let (known, same, live) = (get-IsStore now s history key (Run-IsStore run)).1 e given in
      (known.1, same, live)
