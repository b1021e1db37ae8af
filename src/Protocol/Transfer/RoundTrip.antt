-- ===== src/Protocol/Transfer/RoundTrip.antt =====
-- Each message of crates/ceky-protocol/src/transfer.rs is read back as it was written.
use ceky_p2p.Common.{
  ◌+◌, ◌^◌, ◌≤◌, ◌<◌, ◌≡◌, ◌≢◌, refl, sym, ◌∙◌, ap, arith, Bool, true, false, not, ◌&&◌, Bool-cases,
  inl, inr, [], ◌++◌, length, length-append, le→leb, ne→==, ◌==◌,
}
use mathlib.Core.List.{append-nil}
use ceky_p2p.Common.Bytes.{be_bytes, length-be_bytes}
use ceky_p2p.Common.Outcome.{ok}
use ceky_p2p.Common.Reader.{get_be-be_bytes}
use ceky_p2p.Protocol.Transfer.Utf8.{is_utf8}
use ceky_p2p.Protocol.Transfer.{
  TransferError, read_fixed, FileOffer, encode_offer, decode_offer, FileAccept, encode_accept,
  decode_accept, bool_byte,
}
use ceky_p2p.Protocol.Transfer.Chunks.{
  FileReject, encode_reject, decode_reject, FileChunk, encode_chunk, decode_chunk, FileChunkAck,
  encode_ack, decode_ack, FileComplete, encode_complete, decode_complete, FileCancel, encode_cancel,
  decode_cancel, reject_byte, status_byte, cancel_byte,
}
use ceky_p2p.Protocol.Transfer.Reading.{
  read_fixed-append, decode_start-encode_start, get_bytes_all, get_be_last, status-read,
  reject-read, cancel-read,
}

-- A complete message is read back from its bytes: the offer, where its name is a string of at most 255
-- bytes and its chunk size is not 0.
pub decode_offer-encode_offer :
    (o : FileOffer)
    → length o.transfer_id ≡ 16
    → length o.file_hash ≡ 32
    → o.file_size < 2 ^ 64
    → o.chunk_size < 2 ^ 32
    → o.total_chunks < 2 ^ 32
    → length o.file_name ≤ 255
    → is_utf8 o.file_name ≡ true
    → o.chunk_size ≢ 0
    → decode_offer (encode_offer o) ≡ ok o
unfolding decode_offer encode_offer
decode_offer-encode_offer o hid hh hs hc ht hn hu hz =
    let name = be_bytes 2 (length o.file_name) ++ o.file_name in
    let hash = o.file_hash ++ name in
    let total = be_bytes 4 o.total_chunks ++ hash in
    let chunk = be_bytes 4 o.chunk_size ++ total in
    let size = be_bytes 8 o.file_size ++ chunk in
    let long : 67 ≤ 17 + length size = omega (
      arith,
      length-append (be_bytes 8 o.file_size) chunk,
      length-append (be_bytes 4 o.chunk_size) total,
      length-append (be_bytes 4 o.total_chunks) hash,
      length-append o.file_hash name,
      length-append (be_bytes 2 (length o.file_name)) o.file_name,
      length-be_bytes 8 o.file_size,
      length-be_bytes 4 o.chunk_size,
      length-be_bytes 4 o.total_chunks,
      length-be_bytes 2 (length o.file_name),
      hh,
    ) in
    rw
      (
        decode_start-encode_start 67 o.transfer_id size hid long,
        get_be-be_bytes {E = TransferError} 8 o.file_size chunk (omega arith),
        get_be-be_bytes {E = TransferError} 4 o.chunk_size total (omega arith),
        get_be-be_bytes {E = TransferError} 4 o.total_chunks hash (omega arith),
        read_fixed-append o.file_hash name hh,
        get_be-be_bytes {E = TransferError} 2 (length o.file_name) o.file_name (omega arith),
        le→leb (length o.file_name) 255 hn,
        le→leb (length o.file_name) (length o.file_name) (omega arith),
        get_bytes_all o.file_name,
        hu,
        ne→== o.chunk_size 0 hz,
      )
      refl

bool_byte-lt : (b : Bool) → bool_byte b < 256 ^ 1
bool_byte-lt true = omega arith
bool_byte-lt false = omega arith

bool_byte-read : (b : Bool) → not (bool_byte b == 0) ≡ b
bool_byte-read true = refl
bool_byte-read false = refl

accepted_length :
    (a : FileAccept)
    → (a.resume ≡ false → length a.missing_bitmap ≡ 0)
    → not (not a.resume && not (length a.missing_bitmap == 0)) ≡ true
accepted_length a h = elim (Bool-cases a.resume) [
  | inl resumes ↦ rw resumes refl
  | inr starts ↦ rw (starts, h starts) refl
]

-- An acceptance is read back, where it resumes or has no bitmap.
pub decode_accept-encode_accept :
    (a : FileAccept)
    → length a.transfer_id ≡ 16
    → length a.missing_bitmap < 2 ^ 32
    → (a.resume ≡ false → length a.missing_bitmap ≡ 0)
    → decode_accept (encode_accept a) ≡ ok a
unfolding decode_accept encode_accept
decode_accept-encode_accept a hid hl hr =
    let bits = be_bytes 4 (length a.missing_bitmap) ++ a.missing_bitmap in
    let flag = be_bytes 1 (bool_byte a.resume) ++ bits in
    let long : 22 ≤ 17 + length flag = omega (
      arith,
      length-append (be_bytes 1 (bool_byte a.resume)) bits,
      length-append (be_bytes 4 (length a.missing_bitmap)) a.missing_bitmap,
      length-be_bytes 1 (bool_byte a.resume),
      length-be_bytes 4 (length a.missing_bitmap),
    ) in
    rw
      (
        decode_start-encode_start 22 a.transfer_id flag hid long,
        get_be-be_bytes {E = TransferError} 1 (bool_byte a.resume) bits (bool_byte-lt a.resume),
        get_be-be_bytes {E = TransferError} 4 (length a.missing_bitmap) a.missing_bitmap
            (omega arith),
        bool_byte-read a.resume,
        accepted_length a hr,
        le→leb (length a.missing_bitmap) (length a.missing_bitmap) (omega arith),
        get_bytes_all a.missing_bitmap,
      )
      refl

-- A chunk is read back, with all of its data.
pub decode_chunk-encode_chunk :
    (c : FileChunk)
    → length c.transfer_id ≡ 16
    → length c.chunk_hash ≡ 32
    → c.chunk_index < 2 ^ 32
    → decode_chunk (encode_chunk c) ≡ ok c
unfolding decode_chunk encode_chunk
decode_chunk-encode_chunk c hid hh hi =
    let hash = c.chunk_hash ++ c.data_bytes in
    let index = be_bytes 4 c.chunk_index ++ hash in
    let long : 53 ≤ 17 + length index = omega (
      arith,
      length-append (be_bytes 4 c.chunk_index) hash,
      length-append c.chunk_hash c.data_bytes,
      length-be_bytes 4 c.chunk_index,
      hh,
    ) in
    rw
      (
        decode_start-encode_start 53 c.transfer_id index hid long,
        get_be-be_bytes {E = TransferError} 4 c.chunk_index hash (omega arith),
        read_fixed-append c.chunk_hash c.data_bytes hh,
      )
      refl

-- The acknowledgement of a chunk is read back.
pub decode_ack-encode_ack :
    (a : FileChunkAck)
    → length a.transfer_id ≡ 16
    → a.chunk_index < 2 ^ 32
    → decode_ack (encode_ack a) ≡ ok a
unfolding decode_ack encode_ack
decode_ack-encode_ack a hid hi =
    let status = be_bytes 1 (status_byte a.status) in
    let index = be_bytes 4 a.chunk_index ++ status in
    let long : 22 ≤ 17 + length index = omega (
      arith,
      length-append (be_bytes 4 a.chunk_index) status,
      length-be_bytes 4 a.chunk_index,
      length-be_bytes 1 (status_byte a.status),
    ) in
    rw
      (
        decode_start-encode_start 22 a.transfer_id index hid long,
        get_be-be_bytes {E = TransferError} 4 a.chunk_index status (omega arith),
        get_be_last 1 (status_byte a.status) (status-read a.status).0,
        (status-read a.status).1,
      )
      refl

pub decode_complete-encode_complete :
    (c : FileComplete)
    → length c.transfer_id ≡ 16
    → length c.file_hash ≡ 32
    → decode_complete (encode_complete c) ≡ ok c
unfolding decode_complete encode_complete
decode_complete-encode_complete c hid hh =
    rw
      (
        decode_start-encode_start 49 c.transfer_id c.file_hash hid (omega (arith, hh)),
        ap read_fixed (sym (append-nil c.file_hash)) ∙ read_fixed-append c.file_hash [] hh,
      )
      refl

pub decode_reject-encode_reject :
    (r : FileReject) → length r.transfer_id ≡ 16 → decode_reject (encode_reject r) ≡ ok r
unfolding decode_reject encode_reject
decode_reject-encode_reject r hid =
    let reason = be_bytes 1 (reject_byte r.reason) in
    rw
      (
        decode_start-encode_start 18 r.transfer_id reason hid
            (omega (arith, length-be_bytes 1 (reject_byte r.reason))),
        get_be_last 1 (reject_byte r.reason) (reject-read r.reason).0,
        (reject-read r.reason).1,
      )
      refl

pub decode_cancel-encode_cancel :
    (c : FileCancel) → length c.transfer_id ≡ 16 → decode_cancel (encode_cancel c) ≡ ok c
unfolding decode_cancel encode_cancel
decode_cancel-encode_cancel c hid =
    let reason = be_bytes 1 (cancel_byte c.reason) in
    rw
      (
        decode_start-encode_start 18 c.transfer_id reason hid
            (omega (arith, length-be_bytes 1 (cancel_byte c.reason))),
        get_be_last 1 (cancel_byte c.reason) (cancel-read c.reason).0,
        (cancel-read c.reason).1,
      )
      refl
