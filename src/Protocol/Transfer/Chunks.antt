-- ===== src/Protocol/Transfer/Chunks.antt =====
-- The messages of crates/ceky-protocol/src/transfer.rs other than the offer and its acceptance.
use ceky_p2p.Common.{◌==◌, if◌then◌else◌, ℕ, List, ◌++◌}
use ceky_p2p.Common.Bytes.{be_bytes}
use ceky_p2p.Common.Outcome.{Outcome, ok, err, ◌>>=◌, get_be}
use ceky_p2p.Protocol.Transfer.{
  reject_reason_field, ack_status_field, cancel_reason_field, TransferError, unknown_enum,
  TransferId, read_fixed, decode_start, encode_start,
}

pub data FileRejectReason : Type 0 where
  declined busy not_found protocol internal : FileRejectReason

unfoldable pub reject_byte : FileRejectReason → ℕ
reject_byte declined = 1
reject_byte busy = 2
reject_byte not_found = 3
reject_byte protocol = 4
reject_byte internal = 5

unfoldable pub reject_from_byte : ℕ → Outcome TransferError FileRejectReason
reject_from_byte value =
    if value == 1
    then ok declined
    else (if value == 2
        then ok busy
        else (if value == 3
            then ok not_found
            else (if value == 4
                then ok protocol
                else (if value == 5
                    then ok internal
                    else err (unknown_enum reject_reason_field value)))))

pub record FileReject : Type 0 where
  pub transfer_id : TransferId
  pub reason : FileRejectReason

unfoldable pub encode_reject : FileReject → List ℕ
unfolding reject_byte
encode_reject r = encode_start r.transfer_id (be_bytes 1 (reject_byte r.reason))

unfoldable pub decode_reject : List ℕ → Outcome TransferError FileReject
unfolding decode_start reject_from_byte
decode_reject payload = do
  (transfer_id, buf) ← decode_start 18 payload
  (value, _) ← get_be 1 buf
  reason ← reject_from_byte value
  ok (record { transfer_id = transfer_id; reason = reason })

pub record FileChunk : Type 0 where
  pub transfer_id : TransferId
  pub chunk_index : ℕ
  pub chunk_hash : List ℕ
  pub data_bytes : List ℕ

unfoldable pub encode_chunk : FileChunk → List ℕ
encode_chunk c =
    encode_start c.transfer_id (be_bytes 4 c.chunk_index ++ (c.chunk_hash ++ c.data_bytes))

unfoldable pub decode_chunk : List ℕ → Outcome TransferError FileChunk
unfolding decode_start read_fixed
decode_chunk payload = do
  (transfer_id, buf) ← decode_start 53 payload
  (chunk_index, buf) ← get_be 4 buf
  (chunk_hash, buf) ← read_fixed buf
  ok (record {
    transfer_id = transfer_id;
    chunk_index = chunk_index;
    chunk_hash = chunk_hash;
    data_bytes = buf;
  })

pub data ChunkAckStatus : Type 0 where
  received bad_hash cancelled : ChunkAckStatus

unfoldable pub status_byte : ChunkAckStatus → ℕ
status_byte received = 0
status_byte bad_hash = 1
status_byte cancelled = 2

unfoldable pub status_from_byte : ℕ → Outcome TransferError ChunkAckStatus
status_from_byte value =
    if value == 0
    then ok received
    else (if value == 1
        then ok bad_hash
        else (if value == 2 then ok cancelled else err (unknown_enum ack_status_field value)))

pub record FileChunkAck : Type 0 where
  pub transfer_id : TransferId
  pub chunk_index : ℕ
  pub status : ChunkAckStatus

unfoldable pub encode_ack : FileChunkAck → List ℕ
unfolding status_byte
encode_ack a =
    encode_start a.transfer_id (be_bytes 4 a.chunk_index ++ be_bytes 1 (status_byte a.status))

unfoldable pub decode_ack : List ℕ → Outcome TransferError FileChunkAck
unfolding decode_start status_from_byte
decode_ack payload = do
  (transfer_id, buf) ← decode_start 22 payload
  (chunk_index, buf) ← get_be 4 buf
  (value, _) ← get_be 1 buf
  status ← status_from_byte value
  ok (record { transfer_id = transfer_id; chunk_index = chunk_index; status = status })

pub record FileComplete : Type 0 where
  pub transfer_id : TransferId
  pub file_hash : List ℕ

unfoldable pub encode_complete : FileComplete → List ℕ
encode_complete c = encode_start c.transfer_id c.file_hash

unfoldable pub decode_complete : List ℕ → Outcome TransferError FileComplete
unfolding decode_start read_fixed
decode_complete payload = do
  (transfer_id, buf) ← decode_start 49 payload
  (file_hash, _) ← read_fixed buf
  ok (record { transfer_id = transfer_id; file_hash = file_hash })

pub data FileCancelReason : Type 0 where
  user error timeout : FileCancelReason

unfoldable pub cancel_byte : FileCancelReason → ℕ
cancel_byte user = 1
cancel_byte error = 2
cancel_byte timeout = 3

unfoldable pub cancel_from_byte : ℕ → Outcome TransferError FileCancelReason
cancel_from_byte value =
    if value == 1
    then ok user
    else (if value == 2
        then ok error
        else (if value == 3 then ok timeout else err (unknown_enum cancel_reason_field value)))

pub record FileCancel : Type 0 where
  pub transfer_id : TransferId
  pub reason : FileCancelReason

unfoldable pub encode_cancel : FileCancel → List ℕ
unfolding cancel_byte
encode_cancel c = encode_start c.transfer_id (be_bytes 1 (cancel_byte c.reason))

unfoldable pub decode_cancel : List ℕ → Outcome TransferError FileCancel
unfolding decode_start cancel_from_byte
decode_cancel payload = do
  (transfer_id, buf) ← decode_start 18 payload
  (value, _) ← get_be 1 buf
  reason ← cancel_from_byte value
  ok (record { transfer_id = transfer_id; reason = reason })
