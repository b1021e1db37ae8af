-- ===== src/Transfer/Manager.antt =====
-- crates/ceky-transfer/src/manager.rs and state.rs: the transfers of a node. A path or an address is what
-- its system gives for it, a mapped file its bytes; a frame that is sent is added to `sent`.
pub mod Pump
pub mod Acks
pub mod Counted
pub mod Written
pub mod Whole
mod Tests
use ceky_p2p.Common.{
  ℕ, zero, suc, ◌+◌, ◌-◌, ◌*◌, ◌%◌, ◌^◌, min, Bool, true, false, not, ◌&&◌, Option, none, some,
  List, [], ◌∷◌, ◌++◌, ltb, leb, ◌==◌, if◌then◌else◌, length, take, drop, replicate, any,
}
use ceky_p2p.Common.Bytes.{le_bytes}
use ceky_p2p.Common.Outcome.{Outcome, ok, err, panic, ◌>>=◌, slice}
use ceky_p2p.Crypto.PeerId.{id_eq}
use ceky_p2p.Protocol.Types.{
  MessageType, file_offer, file_accept, file_chunk, file_chunk_ack, file_complete, credit_update,
  empty_flags, Frame, new_frame,
}
use ceky_p2p.Protocol.Transfer.{
  TransferId, FileOffer, new_offer, encode_offer, FileAccept, new_accept, encode_accept,
  compute_total_chunks, file_hash_len,
}
use ceky_p2p.Protocol.Transfer.Chunks.{
  FileChunk, encode_chunk, FileChunkAck, ChunkAckStatus, received, bad_hash, encode_ack,
  FileComplete, encode_complete,
}
use ceky_p2p.Protocol.Transfer.Bitmap.{bitmap_len, bitmap_is_missing, bitmap_set_missing}
use ceky_p2p.Transfer.Merkle.{hash_chunk, calculate_file_hash}

pub data TransferError : Type 0 where
  io not_found invalid_state hash_mismatch : TransferError

pub record SendingState : Type 0 where
  pub peer : ℕ
  pub file_map : List ℕ
  pub bitfield : List ℕ
  pub credits : ℕ
  pub chunk_size : ℕ
  pub total_chunks : ℕ
  pub current_chunk_idx : ℕ

pub record ReceivingState : Type 0 where
  pub peer : ℕ
  pub file_map : List ℕ
  pub expected_root : List ℕ
  pub bitfield : List ℕ
  pub chunk_size : ℕ
  pub total_chunks : ℕ
  pub received_chunks : ℕ
  pub file_path : List ℕ

pub data TransferState : Type 0 where
  sending : SendingState → TransferState
  receiving : ReceivingState → TransferState

-- The active transfers, those whose entry is locked by a guard of `get_mut`, the frames sent so far, and
-- the files flushed to the disk.
pub record TransferManager : Type 0 where
  pub active_transfers : TransferId → Option TransferState
  pub guarded : List TransferId
  pub sent : List (ℕ × Frame)
  pub disk : List ℕ → Option (List ℕ)

-- A call that waits for a lock that its own caller holds never returns.
pub data Stuck : Type 0 where
  deadlock : Stuck

-- The manager after the call, and the error that it returned, if any.
abbrev pub Reply : Type 0
Reply = Outcome Stuck (TransferManager × Option TransferError)

abbrev pub new_transfers : TransferManager
new_transfers = record {
  active_transfers = λ id. none;
  guarded = [];
  sent = [];
  disk = λ path. none;
}

-- `DashMap::get_mut`, `insert` and `remove`. The crate locks the shard of a key; here it is the key, and a call
-- for another key of the same shard waits in the program where it goes on here.
unfoldable pub lock_transfer : TransferManager → TransferId → Outcome Stuck (Option TransferState)
lock_transfer m id = if any (id_eq id) m.guarded then err deadlock else ok (m.active_transfers id)

unfoldable pub insert_transfer : TransferManager → TransferId → TransferState → TransferManager
insert_transfer m id state = record m {
  active_transfers = λ other. if id_eq id other then some state else m.active_transfers other;
}

unfoldable pub remove_transfer : TransferManager → TransferId → TransferManager
remove_transfer m id = record m {
  active_transfers = λ other. if id_eq id other then none else m.active_transfers other;
}

abbrev pub send : TransferManager → ℕ → MessageType → List ℕ → TransferManager
send m peer msg_type payload = record m {
  sent = m.sent ++ ((peer, new_frame msg_type empty_flags 0 payload) ∷ []);
}

-- The payload of a CreditUpdate.
abbrev pub credit_payload : TransferId → ℕ → List ℕ
credit_payload id credits = id ++ le_bytes 4 credits

-- `file.set_len`: cut or filled up with zeros.
abbrev pub set_len : ℕ → List ℕ → List ℕ
set_len size file = take size file ++ replicate (size - length file) 0

-- `file_map[start..start + data.len()].copy_from_slice(data)`, where this is in range.
unfoldable pub write_at : ℕ → List ℕ → List ℕ → List ℕ
write_at start bytes file = take start file ++ (bytes ++ drop (start + length bytes) file)

-- The manager with the transfer of an offer that is received into the mapped file.
unfoldable pub offered : TransferManager → ℕ → FileOffer → List ℕ → List ℕ → TransferManager
unfolding insert_transfer
offered m peer offer path mapped =
    let all_missing = replicate (bitmap_len offer.total_chunks) 255 in
    let state : ReceivingState = record {
      peer = peer;
      file_map = mapped;
      expected_root = offer.file_hash;
      bitfield = all_missing;
      chunk_size = offer.chunk_size;
      total_chunks = offer.total_chunks;
      received_chunks = 0;
      file_path = path;
    } in
    let told =
      send (insert_transfer m offer.transfer_id (receiving state)) peer file_accept
        (encode_accept (new_accept offer.transfer_id all_missing)) in
    send told peer credit_update (credit_payload offer.transfer_id 50)

-- What opening the file at `path` gives: its bytes, empty for a new one, or none on an error; and
-- whether `set_len` and the mapping succeed. Each error returns before the manager changes.
unfoldable pub handle_offer :
    TransferManager
    → ℕ
    → FileOffer
    → List ℕ
    → Option (List ℕ)
    → Bool
    → Bool
    → TransferManager × Option TransferError
unfolding offered
handle_offer m peer offer path none sized mapped = (m, some io)
handle_offer m peer offer path (some file) false mapped = (m, some io)
handle_offer m peer offer path (some file) true false = (m, some io)
handle_offer m peer offer path (some file) true true =
    (offered m peer offer path (set_len offer.file_size file), none)

bitmap_accepted :
    TransferManager → FileAccept → Option TransferState → TransferManager × Option TransferError
unfolding insert_transfer
bitmap_accepted m accept (some (sending s)) = (
  insert_transfer m accept.transfer_id (sending (record s { bitfield = accept.missing_bitmap })),
  none,
)
bitmap_accepted m accept (some (receiving r)) = (m, some not_found)
bitmap_accepted m accept none = (m, some not_found)

pub handle_accept : TransferManager → FileAccept → Reply
unfolding lock_transfer bitmap_accepted
handle_accept m accept = do t ← lock_transfer m accept.transfer_id; ok (bitmap_accepted m accept t)

-- The state after an acknowledgement: a chunk that was damaged is missing again.
unfoldable pub rewound : SendingState → FileChunkAck → SendingState
rewound s ack = elim ack.status [
  | bad_hash ↦ record s {
    bitfield = bitmap_set_missing s.bitfield ack.chunk_index true;
    current_chunk_idx =
        if ltb ack.chunk_index s.current_chunk_idx then ack.chunk_index else s.current_chunk_idx;
  }
  | _ ↦ s
]

module _ (sha256 : List ℕ → List ℕ) where
  -- The frame of the chunk at the current index; a range out of the file panics.
  unfoldable pub chunk_frame : TransferId → SendingState → Outcome Stuck Frame
  unfolding hash_chunk
  chunk_frame id s =
      let start = s.current_chunk_idx * s.chunk_size % 2 ^ 32 in
      let end = min (start + s.chunk_size) (length s.file_map) in
      if leb start end
      then (do
        bytes ← slice start end s.file_map
        ok (
            new_frame file_chunk empty_flags 0 (
              encode_chunk (record {
                transfer_id = id;
                chunk_index = s.current_chunk_idx;
                chunk_hash = hash_chunk sha256 bytes;
                data_bytes = bytes;
              }))))
      else panic

  -- The loop's body; the index is below a u32 and does not wrap.
  unfoldable pub pump_step :
      TransferId → SendingState → Outcome Stuck (SendingState × List (ℕ × Frame))
  unfolding chunk_frame
  pump_step id s =
      if bitmap_is_missing s.bitfield s.current_chunk_idx
      then (do
        frame ← chunk_frame id s
        ok (
          record s { credits = s.credits - 1; current_chunk_idx = s.current_chunk_idx + 1 },
          (s.peer, frame) ∷ [],
        ))
      else ok (record s { current_chunk_idx = s.current_chunk_idx + 1 }, [])

  -- Each round takes the index one further, so the fuel is the number of chunks from it on.
  unfoldable pub pump_loop :
      TransferId → ℕ → SendingState → Outcome Stuck (SendingState × List (ℕ × Frame))
  unfolding pump_step
  pump_loop id zero s = ok (s, [])
  pump_loop id (suc left) s = elim (ltb 0 s.credits && ltb s.current_chunk_idx s.total_chunks) [
    | false ↦ ok (s, [])
    | true ↦ do (t, now) ← pump_step id s; (u, later) ← pump_loop id left t; ok (u, now ++ later)
  ]

  unfoldable pub pumped :
      TransferManager → TransferId → Option TransferState → Outcome Stuck TransferManager
  unfolding pump_loop insert_transfer
  pumped m id (some (sending s)) = do
    (t, frames) ← pump_loop id (s.total_chunks - s.current_chunk_idx) s
    ok (record (insert_transfer m id (sending t)) { sent = m.sent ++ frames })
  pumped m id (some (receiving r)) = ok m
  pumped m id none = ok m

  unfoldable pub pump_send : TransferManager → TransferId → Outcome Stuck TransferManager
  unfolding lock_transfer pumped
  pump_send m id = do t ← lock_transfer m id; pumped m id t

  unfoldable pub credited :
      TransferManager → TransferId → ℕ → Option TransferState → TransferManager
  unfolding insert_transfer
  credited m id credits (some (sending s)) =
      insert_transfer m id (sending (record s { credits = (s.credits + credits) % 2 ^ 32 }))
  credited m id credits (some (receiving r)) = m
  credited m id credits none = m

  unfoldable pub handle_credit_update : TransferManager → TransferId → ℕ → Reply
  unfolding lock_transfer pump_send credited
  handle_credit_update m id credits = do
    t ← lock_transfer m id
    pumped_m ← pump_send (credited m id credits t) id
    ok (pumped_m, none)

  -- The guard of the entry is still held when the pump asks for it.
  unfoldable pub acked : TransferManager → FileChunkAck → Option TransferState → Reply
  unfolding pump_send insert_transfer rewound
  acked m ack (some (sending s)) =
      let id = ack.transfer_id in
      do
        n ←
            pump_send
              (record (insert_transfer m id (sending (rewound s ack))) { guarded = id ∷ m.guarded })
              id
        ok (record n { guarded = m.guarded }, none)
  acked m ack (some (receiving r)) = ok (m, none)
  acked m ack none = ok (m, none)

  unfoldable pub handle_chunk_ack : TransferManager → FileChunkAck → Reply
  unfolding lock_transfer acked
  handle_chunk_ack m ack = do t ← lock_transfer m ack.transfer_id; acked m ack t

  -- The end of a transfer: the flush, the removal and the message.
  unfoldable pub completed : TransferManager → TransferId → ReceivingState → TransferManager
  unfolding remove_transfer
  completed m id r =
      let flushed = record m {
        disk = λ path. if id_eq r.file_path path then some r.file_map else m.disk path;
      } in
      send (remove_transfer flushed id) r.peer file_complete
        (encode_complete (record { transfer_id = id; file_hash = replicate file_hash_len 0 }))

  -- The state with the bytes of a chunk in place.
  unfoldable pub chunk_stored : ReceivingState → FileChunk → ReceivingState
  unfolding write_at
  chunk_stored r chunk = record r {
    file_map = write_at (chunk.chunk_index * r.chunk_size % 2 ^ 32) chunk.data_bytes r.file_map;
    bitfield = bitmap_set_missing r.bitfield chunk.chunk_index false;
    received_chunks = (r.received_chunks + 1) % 2 ^ 32;
  }

  unfoldable pub chunk_fits : ReceivingState → FileChunk → Bool
  chunk_fits r chunk =
      leb (chunk.chunk_index * r.chunk_size % 2 ^ 32 + length chunk.data_bytes) (length r.file_map)

  abbrev ack_payload : FileChunk → ChunkAckStatus → List ℕ
  ack_payload chunk status =
      encode_ack (record {
        transfer_id = chunk.transfer_id;
        chunk_index = chunk.chunk_index;
        status = status;
      })

  -- The chunk is in place, and the peer gets an acknowledgement and one credit.
  unfoldable pub chunk_answered : TransferManager → FileChunk → ReceivingState → TransferManager
  unfolding insert_transfer
  chunk_answered m chunk t =
      let id = chunk.transfer_id in
      send
        (send (insert_transfer m id (receiving t)) t.peer file_chunk_ack
          (ack_payload chunk received))
        t.peer credit_update (credit_payload id 1)

  unfoldable pub chunk_received :
      TransferManager → FileChunk → Option TransferState → TransferManager × Option TransferError
  unfolding hash_chunk chunk_stored chunk_fits chunk_answered completed
  chunk_received m chunk (some (receiving r)) =
      if not (id_eq (hash_chunk sha256 chunk.data_bytes) chunk.chunk_hash)
      then (send m r.peer file_chunk_ack (ack_payload chunk bad_hash), some hash_mismatch)
      else (if chunk_fits r chunk
          then (
            let t = chunk_stored r chunk in
                let n = chunk_answered m chunk t in
                (if t.received_chunks == t.total_chunks
                  then completed n chunk.transfer_id t
                  else n),
            none,
          )
          else (m, none))
  chunk_received m chunk (some (sending s)) = (m, none)
  chunk_received m chunk none = (m, some not_found)

  unfoldable pub handle_chunk : TransferManager → FileChunk → Reply
  unfolding lock_transfer chunk_received
  handle_chunk m chunk = do t ← lock_transfer m chunk.transfer_id; ok (chunk_received m chunk t)

  -- What opening the file gives, and the random bytes of the id.
  pub offer_file :
      TransferManager
      → ℕ
      → Option (List ℕ)
      → List ℕ
      → ℕ
      → TransferId
      → Outcome TransferError (TransferManager × TransferId)
  unfolding calculate_file_hash new_offer insert_transfer compute_total_chunks
  offer_file m peer none file_name chunk_size id = err io
  offer_file m peer (some file) file_name chunk_size id =
      elim (new_offer id file_name (length file) chunk_size
        (calculate_file_hash sha256 file chunk_size)) [
          | ok offer ↦
              let total_chunks = compute_total_chunks (length file) chunk_size in
              let state : SendingState = record {
                peer = peer;
                file_map = file;
                bitfield = replicate (bitmap_len total_chunks) 255;
                credits = 0;
                chunk_size = chunk_size;
                total_chunks = total_chunks;
                current_chunk_idx = 0;
              } in
              ok (
                send (insert_transfer m id (sending state)) peer file_offer (encode_offer offer),
                id,
              )
          | err e ↦ err invalid_state
          | panic ↦ panic
        ]
