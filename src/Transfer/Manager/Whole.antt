-- ===== src/Transfer/Manager/Whole.antt =====
-- A whole transfer of crates/ceky-transfer/src/manager.rs, from the offer to the file on the disk.

use ceky_p2p.Common.{
  ℕ, ◌+◌, ◌-◌, ◌*◌, ◌^◌, ◌<◌, ◌≡◌, refl, sym, subst, ◌∙◌, ap, arith, true, false, List, [], ◌∷◌,
  map, take, drop, length, length-take, length-drop, min, any, All, ◌==◌, none, some, eq→==, ne→==,
  replicate, leb, ◌||◌, length-append, length-replicate, Bool-cases, inl, inr,
}
use ceky_p2p.Common.Outcome.{ok, ◌>>=◌, ok-injective}
use ceky_p2p.Dht.KBucket.Peers.{id_eq_self}
use ceky_p2p.Crypto.PeerId.{id_eq}
use ceky_p2p.Protocol.Transfer.Bitmap.{bitmap_len}
use ceky_p2p.Protocol.Transfer.{TransferId, FileOffer, new_offer, compute_total_chunks}
use ceky_p2p.Protocol.Transfer.Chunks.{FileChunk}
use ceky_p2p.Transfer.Manager.{
  ReceivingState, receiving, TransferManager, Reply, lock_transfer, chunk_stored, chunk_answered,
  completed, handle_chunk, insert_transfer, set_len, offered, handle_offer,
}
use ceky_p2p.Transfer.Manager.Pump.{chunk_of}
use ceky_p2p.Transfer.Manager.Counted.{
  IsGood, handled, completed-ends, lock_transfer-chunk_answered,
}
use ceky_p2p.Transfer.Manager.Written.{deliver, chunk_at, chunk_stored-file_map, deliver-whole}

compute_total_chunks-lt :
    (file_size chunk_size : ℕ) → compute_total_chunks file_size chunk_size < 2 ^ 32
unfolding compute_total_chunks
compute_total_chunks-lt file_size chunk_size =
    elim (Bool-cases ((file_size == 0) || (chunk_size == 0))) [
      | inl empty ↦ rw empty (omega arith)
      | inr full ↦ rw full (omega arith)
    ]

length-set_len : (file old : List ℕ) → length (set_len (length file) old) ≡ length file
length-set_len file old = omega (
  arith,
  length-append (take (length file) old) (replicate (length file - length old) 0),
  length-take (length file) old,
  length-replicate {A = ℕ} (length file - length old) 0,
)

-- The chunks go through `handle_chunk` one after the other, up to the first error.
unfoldable pub arrive : (List ℕ → List ℕ) → TransferManager → List FileChunk → Reply
unfolding handle_chunk
arrive sha256 m [] = ok (m, none)
arrive sha256 m (x ∷ xs) = handle_chunk sha256 m x >>= λ a. elim a.1 [
  | none ↦ arrive sha256 a.0 xs
  | some e ↦ ok (a.0, some e)
]

module _ (sha256 : List ℕ → List ℕ) (id : TransferId) (file : List ℕ) where
  chunk_at-IsGood :
      (r : ReceivingState) (i : ℕ)
      → length file < 2 ^ 32
      → length r.file_map ≡ length file
      → i * r.chunk_size < length file
      → IsGood sha256 r (chunk_at sha256 id file r.chunk_size i)
  chunk_at-IsGood r i small len begins =
      let c = r.chunk_size in
      let size : length (chunk_of file c i) ≡ min c (length file - i * c) =
        length-take c (drop (i * c) file) ∙ ap (min c) (length-drop (i * c) file) in
      (id_eq_self _, omega (arith, size, begins, len), omega (arith, len, small))

  -- A transfer that counts as many more chunks as arrive ends with the last of them.
  arrive-ends :
      (m : TransferManager) (r : ReceivingState) (i : ℕ) (indices : List ℕ)
      → lock_transfer m id ≡ ok (some (receiving r))
      → length file < 2 ^ 32
      → length r.file_map ≡ length file
      → All (λ j. j * r.chunk_size < length file) (i ∷ indices)
      → r.received_chunks + length (i ∷ indices) ≡ r.total_chunks
      → r.total_chunks < 2 ^ 32
      → let chunks = map (chunk_at sha256 id file r.chunk_size) (i ∷ indices) in
        (n : TransferManager) × (arrive sha256 m chunks ≡ ok (n, none))
        × (n.active_transfers id ≡ none)
        × (n.disk r.file_path ≡ some (deliver sha256 r chunks).file_map)
  unfolding arrive deliver chunk_stored
  arrive-ends m r i [] found small len inside count room =
      let chunk = chunk_at sha256 id file r.chunk_size i in
      let t = chunk_stored sha256 r chunk in
      let last : (t.received_chunks == t.total_chunks) ≡ true =
        eq→== t.received_chunks t.total_chunks (omega arith) in
      let n = completed sha256 (chunk_answered sha256 m chunk t) id t in
      let came : handle_chunk sha256 m chunk ≡ ok (n, none) =
        rw (handled sha256 m r chunk found (chunk_at-IsGood r i small len inside.0), last) refl in
      let (ended, flushed) = completed-ends sha256 (chunk_answered sha256 m chunk t) id t in
      (n, rw came refl, ended, flushed)
  arrive-ends m r i (j ∷ indices) found small len inside count room =
      let chunk = chunk_at sha256 id file r.chunk_size i in
      let t = chunk_stored sha256 r chunk in
      let more : (t.received_chunks == t.total_chunks) ≡ false =
        ne→== t.received_chunks t.total_chunks (omega arith) in
      let n = chunk_answered sha256 m chunk t in
      let came : handle_chunk sha256 m chunk ≡ ok (n, none) =
        rw (handled sha256 m r chunk found (chunk_at-IsGood r i small len inside.0), more) refl in
      let (p, went, ended, flushed) =
        arrive-ends n t j indices (lock_transfer-chunk_answered sha256 m chunk r t found) small
          (chunk_stored-file_map sha256 id file r i small len inside.0).1 inside.1 (omega arith)
          room in
      (p, rw came went, ended, flushed)

  -- The offer of a file for a chunk size has that file's size and number of chunks.
  new_offer-fields :
      (name hash : List ℕ) (c : ℕ) (offer : FileOffer)
      → new_offer id name (length file) c hash ≡ ok offer
      → (0 < c)
        × (offer.transfer_id ≡ id)
        × (offer.file_size ≡ length file)
        × (offer.chunk_size ≡ c)
        × (offer.total_chunks ≡ compute_total_chunks (length file) c)
        × (offer.total_chunks < 2 ^ 32)
  unfolding new_offer compute_total_chunks
  new_offer-fields name hash c offer e = elim (Bool-cases (c == 0)) [
    | inl none_at_all ↦ cc (rw (new_offer, none_at_all) at e)
    | inr some_size ↦ elim (Bool-cases (leb (length name) 255)) [
      | inr too_long ↦ cc (rw (new_offer, some_size, too_long) at e)
      | inl short ↦
          let made = ok-injective (rw (new_offer, some_size, short) at e) in
          let total : compute_total_chunks (length file) c ≡ offer.total_chunks =
            rw (compute_total_chunks, some_size) (ap (λ (o : FileOffer). o.total_chunks) made) in
          (
            ground arith,
            sym (ap (λ (o : FileOffer). o.transfer_id) made),
            sym (ap (λ (o : FileOffer). o.file_size) made),
            sym (ap (λ (o : FileOffer). o.chunk_size) made),
            sym total,
            rw (← total) (compute_total_chunks-lt (length file) c),
          )
    ]
  ]

  offered-receives :
      (m : TransferManager) (peer : ℕ) (offer : FileOffer) (path mapped : List ℕ)
      → offer.transfer_id ≡ id
      → any (id_eq id) m.guarded ≡ false
      → let r : ReceivingState = record {
        peer = peer;
        file_map = mapped;
        expected_root = offer.file_hash;
        bitfield = replicate (bitmap_len offer.total_chunks) 255;
        chunk_size = offer.chunk_size;
        total_chunks = offer.total_chunks;
        received_chunks = 0;
        file_path = path;
      } in
        lock_transfer (offered m peer offer path mapped) id ≡ ok (some (receiving r))
  unfolding offered lock_transfer insert_transfer
  offered-receives m peer offer path mapped same free = rw (same, free, id_eq_self id) refl

  -- For the offer that is made of a file of 1 to 2^32 - 1 bytes, handled with the download file opened,
  -- sized and mapped and with no guard held on its transfer, and then as many chunks of the file as it has,
  -- each of them among these, in any order: every `handle_chunk` succeeds, the last one ends the transfer,
  -- and the file on the disk is the file that was offered, whatever the download file held before.
  pub offer-whole :
      (m : TransferManager) (peer : ℕ) (name hash : List ℕ) (c : ℕ) (offer : FileOffer)
      (path old indices : List ℕ)
      → 0 < length file
      → length file < 2 ^ 32
      → new_offer id name (length file) c hash ≡ ok offer
      → any (id_eq id) m.guarded ≡ false
      → length indices ≡ compute_total_chunks (length file) c
      → All (λ i. i * c < length file) indices
      → ((i : ℕ) → i * c < length file → any (λ j. j == i) indices ≡ true)
      → let received = handle_offer m peer offer path (some old) true true in
        (n : TransferManager) × (received.1 ≡ none)
        × (arrive sha256 received.0 (map (chunk_at sha256 id file c) indices) ≡ ok (n, none))
        × (n.active_transfers id ≡ none)
        × (n.disk path ≡ some file)
  unfolding handle_offer
  offer-whole m peer name hash c offer path old [] some_bytes small made free count inside all =
      cc (all 0 (omega arith))
  offer-whole m peer name hash c offer path old (i ∷ indices) some_bytes small made free count
        inside all =
      let (pos, same_id, size, same_c, total, room) = new_offer-fields name hash c offer made in
      let mapped = set_len offer.file_size old in
      let r : ReceivingState = record {
        peer = peer;
        file_map = mapped;
        expected_root = offer.file_hash;
        bitfield = replicate (bitmap_len offer.total_chunks) 255;
        chunk_size = offer.chunk_size;
        total_chunks = offer.total_chunks;
        received_chunks = 0;
        file_path = path;
      } in
      let found = offered-receives m peer offer path mapped same_id free in
      let len : length mapped ≡ length file = rw size (length-set_len file old) in
      let here : All (λ j. j * offer.chunk_size < length file) (i ∷ indices) =
        subst (λ (d : ℕ). All (λ j. j * d < length file) (i ∷ indices)) (sym same_c) inside in
      let everything : (j : ℕ)
          → j * offer.chunk_size < length file
          → any (λ l. l == j) (i ∷ indices) ≡ true =
        subst (λ (d : ℕ). (j : ℕ) → j * d < length file → any (λ l. l == j) (i ∷ indices) ≡ true)
          (sym same_c) all in
      let (n, went, ended, flushed) =
        arrive-ends (offered m peer offer path mapped) r i indices found small len here
          (omega (arith, count, total)) room in
      let whole =
        deliver-whole sha256 id file r (i ∷ indices) small len (omega (arith, same_c, pos)) here
          everything in
      let arrived =
        subst
          (λ (d : ℕ).
            arrive sha256 (offered m peer offer path mapped)
              (map (chunk_at sha256 id file d) (i ∷ indices))
            ≡ ok (n, none))
          same_c went in
      (n, refl, arrived, ended, flushed ∙ ap some whole)
