-- ===== src/Transfer/Manager/Counted.antt =====
-- What a received chunk does in crates/ceky-transfer/src/manager.rs.
use ceky_p2p.Common.{
  ℕ, ◌+◌, ◌*◌, ◌%◌, ◌^◌, ◌≤◌, ◌<◌, ◌≡◌, refl, ◌∙◌, ap, arith, true, false, none, some, List, ◌++◌,
  take, drop, length, length-append, length-take, length-drop, take-append_of, drop-append_of,
  drop-drop, le→leb, ◌==◌, eq→==, ne→==, if◌then◌else◌, any, Bool-cases, ◌⊎◌, inl, inr,
}
use ceky_p2p.Common.Outcome.{ok}
use ceky_p2p.Crypto.PeerId.{id_eq}
use ceky_p2p.Dht.KBucket.Peers.{id_eq_self}
use ceky_p2p.Protocol.Transfer.{TransferId}
use ceky_p2p.Protocol.Transfer.Chunks.{FileChunk}
use ceky_p2p.Transfer.Merkle.{hash_chunk}
use ceky_p2p.Transfer.Manager.{
  TransferManager, ReceivingState, receiving, lock_transfer, insert_transfer, write_at,
  chunk_stored, chunk_fits, chunk_answered, remove_transfer, completed, chunk_received,
  handle_chunk,
}

-- Bytes that are written within a file are there after, and the bytes before and behind them stay.
pub write_at_lem :
    (start : ℕ) (bytes file : List ℕ)
    → start + length bytes ≤ length file
    → (take start (write_at start bytes file) ≡ take start file)
      × (take (length bytes) (drop start (write_at start bytes file)) ≡ bytes)
      × (drop (start + length bytes) (write_at start bytes file) ≡ drop (start + length bytes) file)
      × (length (write_at start bytes file) ≡ length file)
unfolding write_at
write_at_lem start bytes file h =
    let front : length (take start file) ≡ start = omega (arith, length-take start file) in
    let behind = drop (start + length bytes) file in
    let rest = drop-append_of start (take start file) (bytes ++ behind) front in
    (
      take-append_of start (take start file) (bytes ++ behind) front,
      rw rest (take-append_of (length bytes) bytes behind refl),
      drop-drop start (length bytes) (take start file ++ (bytes ++ behind))
          ∙ (rw rest (drop-append_of (length bytes) bytes behind refl)),
      omega (
        arith,
        length-append (take start file) (bytes ++ behind),
        length-append bytes behind,
        length-drop (start + length bytes) file,
        front,
      ),
    )

-- Writing the same bytes again changes nothing.
write_at_twice :
    (start : ℕ) (bytes file : List ℕ)
    → start + length bytes ≤ length file
    → write_at start bytes (write_at start bytes file) ≡ write_at start bytes file
unfolding write_at
write_at_twice start bytes file h =
    let (front, _, behind, _) = write_at_lem start bytes file h in rw (front, behind) refl

module _ (sha256 : List ℕ → List ℕ) where
  -- The chunk comes with its own hash and lies inside the file.
  abbrev pub IsGood : ReceivingState → FileChunk → Type 0
  IsGood r chunk =
      (id_eq (hash_chunk sha256 chunk.data_bytes) chunk.chunk_hash ≡ true)
      × (chunk.chunk_index * r.chunk_size + length chunk.data_bytes ≤ length r.file_map)
      × (length r.file_map < 2 ^ 32)

  fits_lem :
      (r : ReceivingState) (chunk : FileChunk)
      → IsGood r chunk
      → (chunk.chunk_index * r.chunk_size % 2 ^ 32 ≡ chunk.chunk_index * r.chunk_size)
        × (chunk_fits sha256 r chunk ≡ true)
  unfolding chunk_fits
  fits_lem r chunk h =
      let whole : chunk.chunk_index * r.chunk_size % 2 ^ 32 ≡ chunk.chunk_index * r.chunk_size =
        omega (arith, h.1, h.2) in
      (whole, rw whole (le→leb _ _ h.1))

  pub handled :
      (m : TransferManager) (r : ReceivingState) (chunk : FileChunk)
      → lock_transfer m chunk.transfer_id ≡ ok (some (receiving r))
      → IsGood r chunk
      → let t = chunk_stored sha256 r chunk in
        let n = chunk_answered sha256 m chunk t in
        handle_chunk sha256 m chunk
        ≡ ok (
          (if t.received_chunks == t.total_chunks
              then completed sha256 n chunk.transfer_id t
              else n),
          none,
        )
  unfolding handle_chunk chunk_received
  handled m r chunk found h = rw (found, chunk_received, h.0, (fits_lem r chunk h).1) refl

  -- Where the transfer stands: it goes on with the state t, or its file is on the disk.
  abbrev pub Lands : TransferManager → TransferId → ReceivingState → Type 0
  Lands n id t =
      (n.active_transfers id ≡ some (receiving t))
      ⊎ ((n.active_transfers id ≡ none) × (n.disk t.file_path ≡ some t.file_map))

  chunk_answered-active :
      (m : TransferManager) (chunk : FileChunk) (t : ReceivingState)
      → (chunk_answered sha256 m chunk t).active_transfers chunk.transfer_id ≡ some (receiving t)
  unfolding chunk_answered insert_transfer
  chunk_answered-active m chunk t = rw (id_eq_self chunk.transfer_id) refl

  pub completed-ends :
      (m : TransferManager) (id : TransferId) (t : ReceivingState)
      → ((completed sha256 m id t).active_transfers id ≡ none)
        × ((completed sha256 m id t).disk t.file_path ≡ some t.file_map)
  unfolding completed remove_transfer
  completed-ends m id t = (rw (id_eq_self id) refl, rw (id_eq_self t.file_path) refl)

  -- A file holds the bytes from the start on, and else it is as before.
  abbrev pub IsPlaced : List ℕ → List ℕ → ℕ → List ℕ → Type 0
  IsPlaced file before start bytes =
      (take start file ≡ take start before)
      × (take (length bytes) (drop start file) ≡ bytes)
      × (drop (start + length bytes) file ≡ drop (start + length bytes) before)
      × (length file ≡ length before)

  stored_lem :
      (r : ReceivingState) (chunk : FileChunk)
      → IsGood r chunk
      → IsPlaced
          (chunk_stored sha256 r chunk).file_map
          r.file_map
          (chunk.chunk_index * r.chunk_size)
          chunk.data_bytes
  unfolding chunk_stored
  stored_lem r chunk h =
      rw ((fits_lem r chunk h).0)
        (write_at_lem (chunk.chunk_index * r.chunk_size) chunk.data_bytes r.file_map h.1)

  stored_twice :
      (r : ReceivingState) (chunk : FileChunk)
      → IsGood r chunk
      → (chunk_stored sha256 (chunk_stored sha256 r chunk) chunk).file_map
        ≡ (chunk_stored sha256 r chunk).file_map
  unfolding chunk_stored
  stored_twice r chunk h =
      rw ((fits_lem r chunk h).0)
        (write_at_twice (chunk.chunk_index * r.chunk_size) chunk.data_bytes r.file_map h.1)

  chunk_stored-IsGood :
      (r : ReceivingState) (chunk : FileChunk)
      → IsGood r chunk
      → IsGood (chunk_stored sha256 r chunk) chunk
  unfolding chunk_stored
  chunk_stored-IsGood r chunk h =
      let (_, _, _, len) = stored_lem r chunk h in
      (h.0, omega (arith, len, h.1), omega (arith, len, h.2))

  pub lock_transfer-chunk_answered :
      (m : TransferManager) (chunk : FileChunk) (r t : ReceivingState)
      → lock_transfer m chunk.transfer_id ≡ ok (some (receiving r))
      → lock_transfer (chunk_answered sha256 m chunk t) chunk.transfer_id ≡ ok (some (receiving t))
  unfolding lock_transfer chunk_answered insert_transfer
  lock_transfer-chunk_answered m chunk r t found =
      elim (Bool-cases (any (id_eq chunk.transfer_id) m.guarded)) [
        | inl held ↦ cc (rw (lock_transfer, held) at found)
        | inr free ↦ rw (free, id_eq_self chunk.transfer_id) refl
      ]

  -- For a transfer that is being received, with no guard held on it, and chunk i of it with its own hash
  -- and inside a file of less than 2^32 bytes: `handle_chunk` succeeds, the file has the chunk's bytes
  -- from i times the chunk size on and is otherwise and in length as before, and the transfer goes on with
  -- this file or has ended with it on the disk.
  pub handle_chunk_lem :
      (m : TransferManager) (r : ReceivingState) (chunk : FileChunk)
      → lock_transfer m chunk.transfer_id ≡ ok (some (receiving r))
      → IsGood r chunk
      → let t = chunk_stored sha256 r chunk in
        (n : TransferManager) × (handle_chunk sha256 m chunk ≡ ok (n, none))
        × Lands n chunk.transfer_id t
        × IsPlaced t.file_map r.file_map (chunk.chunk_index * r.chunk_size) chunk.data_bytes
  unfolding chunk_stored
  handle_chunk_lem m r chunk found h =
      let t = chunk_stored sha256 r chunk in
      let n = chunk_answered sha256 m chunk t in
      let id = chunk.transfer_id in
      let written = stored_lem r chunk h in
      elim (Bool-cases (t.received_chunks == t.total_chunks)) [
        | inl all_counted ↦ (
          completed sha256 n id t,
          rw (handled m r chunk found h, all_counted) refl,
          inr (completed-ends n id t),
          written,
        )
        | inr more ↦ (
          n,
          rw (handled m r chunk found h, more) refl,
          inl (chunk_answered-active m chunk t),
          written,
        )
      ]

  -- For a transfer that waits for its last two chunks, and one of them with its own hash and inside the
  -- file: if it comes twice, it is counted twice. The transfer ends and its file is on the disk with this
  -- chunk alone.
  pub handle_chunk_twice :
      (m : TransferManager) (r : ReceivingState) (chunk : FileChunk)
      → lock_transfer m chunk.transfer_id ≡ ok (some (receiving r))
      → IsGood r chunk
      → r.total_chunks ≡ r.received_chunks + 2
      → r.total_chunks < 2 ^ 32
      → (n : TransferManager) × (p : TransferManager) × (handle_chunk sha256 m chunk ≡ ok (n, none))
        × (handle_chunk sha256 n chunk ≡ ok (p, none))
        × (p.active_transfers chunk.transfer_id ≡ none)
        × (p.disk r.file_path ≡ some (chunk_stored sha256 r chunk).file_map)
  unfolding chunk_stored
  handle_chunk_twice m r chunk found h two small =
      let id = chunk.transfer_id in
      let t = chunk_stored sha256 r chunk in
      let u = chunk_stored sha256 t chunk in
      let n = chunk_answered sha256 m chunk t in
      let more : (t.received_chunks == t.total_chunks) ≡ false =
        ne→== t.received_chunks t.total_chunks (omega arith) in
      let counted : (u.received_chunks == u.total_chunks) ≡ true =
        eq→== u.received_chunks u.total_chunks (omega arith) in
      let good = chunk_stored-IsGood r chunk h in
      let (ended, flushed) = completed-ends (chunk_answered sha256 n chunk u) id u in
      (
        n,
        completed sha256 (chunk_answered sha256 n chunk u) id u,
        rw (handled m r chunk found h, more) refl,
        rw (handled n t chunk (lock_transfer-chunk_answered m chunk r t found) good, counted) refl,
        ended,
        flushed ∙ ap some (stored_twice r chunk h),
      )
