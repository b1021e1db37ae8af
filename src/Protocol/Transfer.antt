-- ===== src/Protocol/Transfer.antt =====
-- crates/ceky-protocol/src/transfer.rs: the messages of a file transfer. A `Bytes` buffer is the list of
-- its bytes and a `String` that of its UTF-8 bytes; `usize` is 64 bits wide.
pub mod Utf8
pub mod Chunks
pub mod Bitmap
pub mod Reading
pub mod RoundTrip
pub mod Total
mod Tests
use ceky_p2p.Common.{
  ℕ, ◌+◌, ◌-◌, ◌/◌, ◌%◌, ◌^◌, Bool, true, false, not, ◌&&◌, ◌||◌, List, [], ◌∷◌, ◌++◌, ltb, leb,
  ◌==◌, if◌then◌else◌, length,
}
use ceky_p2p.Common.Bytes.{be_bytes}
use ceky_p2p.Common.Outcome.{Outcome, ok, err, ◌>>=◌, ◌>>◌, guard, get_be, get_bytes}
use ceky_p2p.Protocol.Transfer.Utf8.{is_utf8}

abbrev pub transfer_version : ℕ
transfer_version = 1

abbrev pub transfer_id_len : ℕ
transfer_id_len = 16

abbrev pub file_hash_len : ℕ
file_hash_len = 32

abbrev pub max_file_name_len : ℕ
max_file_name_len = 255

-- The names of fields that errors carry.
pub data Field : Type 0 where
  chunk_size_field file_name_field missing_bitmap_field : Field
  reject_reason_field ack_status_field cancel_reason_field : Field

pub data TransferError : Type 0 where
  unsupported_version : ℕ → TransferError
  buffer_too_short : ℕ → ℕ → TransferError
  invalid_field : Field → TransferError
  invalid_file_name : TransferError
  unknown_enum : Field → ℕ → TransferError

abbrev pub TransferId : Type 0
TransferId = List ℕ

abbrev pub bool_byte : Bool → ℕ
bool_byte true = 1
bool_byte false = 0

unfoldable pub compute_total_chunks : ℕ → ℕ → ℕ
compute_total_chunks file_size chunk_size =
    if (file_size == 0) || (chunk_size == 0) then 0 else ((file_size - 1) / chunk_size + 1) % 2 ^ 32

abbrev pub ensure_remaining : ℕ → List ℕ → Outcome TransferError (Unit {0})
ensure_remaining needed buf = guard (leb needed (length buf)) (buffer_too_short needed (length buf))

unfoldable pub read_transfer_id : List ℕ → Outcome TransferError (TransferId × List ℕ)
read_transfer_id buf = do ensure_remaining transfer_id_len buf; get_bytes transfer_id_len buf

-- At N = 32, its only use.
unfoldable pub read_fixed : List ℕ → Outcome TransferError (List ℕ × List ℕ)
read_fixed buf = do ensure_remaining file_hash_len buf; get_bytes file_hash_len buf

-- The beginning of each `decode`: the length, the version and the id.
unfoldable pub decode_start : ℕ → List ℕ → Outcome TransferError (TransferId × List ℕ)
unfolding read_transfer_id
decode_start needed payload = do
  ensure_remaining needed payload
  (version, buf) ← get_be 1 payload
  guard (version == transfer_version) (unsupported_version version)
  read_transfer_id buf

-- The beginning of each `encode`.
abbrev pub encode_start : TransferId → List ℕ → List ℕ
encode_start transfer_id rest = be_bytes 1 transfer_version ++ (transfer_id ++ rest)

pub record FileOffer : Type 0 where
  pub transfer_id : TransferId
  pub file_name : List ℕ
  pub file_size : ℕ
  pub chunk_size : ℕ
  pub total_chunks : ℕ
  pub file_hash : List ℕ

unfoldable pub new_offer : TransferId → List ℕ → ℕ → ℕ → List ℕ → Outcome TransferError FileOffer
unfolding compute_total_chunks
new_offer transfer_id file_name file_size chunk_size file_hash = do
  guard (not (chunk_size == 0)) (invalid_field chunk_size_field)
  guard (leb (length file_name) max_file_name_len) (invalid_field file_name_field)
  ok (record {
    transfer_id = transfer_id;
    file_name = file_name;
    file_size = file_size;
    chunk_size = chunk_size;
    total_chunks = compute_total_chunks file_size chunk_size;
    file_hash = file_hash;
  })

unfoldable pub encode_offer : FileOffer → List ℕ
encode_offer o = encode_start o.transfer_id (
    be_bytes 8 o.file_size
    ++ (be_bytes 4 o.chunk_size
        ++ (be_bytes 4 o.total_chunks
            ++ (o.file_hash ++ (be_bytes 2 (length o.file_name) ++ o.file_name)))))

unfoldable pub decode_offer : List ℕ → Outcome TransferError FileOffer
unfolding decode_start read_fixed
decode_offer payload = do
  (transfer_id, buf) ← decode_start 67 payload
  (file_size, buf) ← get_be 8 buf
  (chunk_size, buf) ← get_be 4 buf
  (total_chunks, buf) ← get_be 4 buf
  (file_hash, buf) ← read_fixed buf
  (name_len, buf) ← get_be 2 buf
  guard (leb name_len max_file_name_len) (invalid_field file_name_field)
  ensure_remaining name_len buf
  (file_name, _) ← get_bytes name_len buf
  guard (is_utf8 file_name) invalid_file_name
  guard (not (chunk_size == 0)) (invalid_field chunk_size_field)
  ok (record {
    transfer_id = transfer_id;
    file_name = file_name;
    file_size = file_size;
    chunk_size = chunk_size;
    total_chunks = total_chunks;
    file_hash = file_hash;
  })

pub record FileAccept : Type 0 where
  pub transfer_id : TransferId
  pub resume : Bool
  pub missing_bitmap : List ℕ

unfoldable pub new_accept : TransferId → List ℕ → FileAccept
new_accept transfer_id missing_bitmap = record {
  transfer_id = transfer_id;
  resume = not (length missing_bitmap == 0);
  missing_bitmap = missing_bitmap;
}

unfoldable pub encode_accept : FileAccept → List ℕ
encode_accept a =
    encode_start a.transfer_id (
      be_bytes 1 (bool_byte a.resume) ++ (be_bytes 4 (length a.missing_bitmap) ++ a.missing_bitmap))

unfoldable pub decode_accept : List ℕ → Outcome TransferError FileAccept
unfolding decode_start
decode_accept payload = do
  (transfer_id, buf) ← decode_start 22 payload
  (flag, buf) ← get_be 1 buf
  (bitmap_len, buf) ← get_be 4 buf
  let resume : Bool = not (flag == 0)
  guard (not (not resume && not (bitmap_len == 0))) (invalid_field missing_bitmap_field)
  ensure_remaining bitmap_len buf
  (missing_bitmap, _) ← get_bytes bitmap_len buf
  ok (record { transfer_id = transfer_id; resume = resume; missing_bitmap = missing_bitmap })
