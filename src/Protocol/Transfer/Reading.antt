-- ===== src/Protocol/Transfer/Reading.antt =====
-- The parts of the messages of crates/ceky-protocol/src/transfer.rs are read back as they were written.
use ceky_p2p.Common.{
  ℕ, ◌+◌, ◌^◌, ◌≤◌, ◌<◌, ◌≡◌, refl, sym, ◌∙◌, ap, arith, List, [], ◌++◌, length, length-append,
  le→leb,
}
use mathlib.Core.List.{append-nil}
use ceky_p2p.Common.Bytes.{be_bytes, length-be_bytes}
use ceky_p2p.Common.Outcome.{ok, get_be, get_bytes}
use ceky_p2p.Common.Reader.{get_bytes-append, get_be-be_bytes}
use ceky_p2p.Protocol.Transfer.{
  TransferError, read_transfer_id, read_fixed, decode_start, encode_start,
}
use ceky_p2p.Protocol.Transfer.Chunks.{
  reject_byte, reject_from_byte, status_byte, status_from_byte, cancel_byte, cancel_from_byte,
  FileRejectReason, ChunkAckStatus, FileCancelReason, declined, received, user,
}

pub read_transfer_id-append :
    (id rest : List ℕ) → length id ≡ 16 → read_transfer_id (id ++ rest) ≡ ok (id, rest)
unfolding read_transfer_id
read_transfer_id-append id rest e =
    rw (le→leb 16 (length (id ++ rest)) (omega (arith, length-append id rest, e)))
      (get_bytes-append 16 id rest e)

pub read_fixed-append :
    (hash rest : List ℕ) → length hash ≡ 32 → read_fixed (hash ++ rest) ≡ ok (hash, rest)
unfolding read_fixed
read_fixed-append hash rest e =
    rw (le→leb 32 (length (hash ++ rest)) (omega (arith, length-append hash rest, e)))
      (get_bytes-append 32 hash rest e)

pub decode_start-encode_start :
    (needed : ℕ) (id rest : List ℕ)
    → length id ≡ 16
    → needed ≤ 17 + length rest
    → decode_start needed (encode_start id rest) ≡ ok (id, rest)
unfolding decode_start
decode_start-encode_start needed id rest e h =
    let fits : needed ≤ length (encode_start id rest) = omega (
      arith,
      length-append (be_bytes 1 1) (id ++ rest),
      length-be_bytes 1 1,
      length-append id rest,
      e,
      h,
    ) in
    rw
      (
        le→leb needed (length (encode_start id rest)) fits,
        get_be-be_bytes {E = TransferError} 1 1 (id ++ rest) (omega arith),
        read_transfer_id-append id rest e,
      )
      refl

pub get_bytes_all : (xs : List ℕ) → get_bytes {E = TransferError} (length xs) xs ≡ ok (xs, [])
get_bytes_all xs =
    ap (get_bytes {E = TransferError} (length xs)) (sym (append-nil xs))
    ∙ get_bytes-append (length xs) xs [] refl

-- A number at the end of a buffer.
pub get_be_last : (n v : ℕ) → v < 256 ^ n → get_be {E = TransferError} n (be_bytes n v) ≡ ok (v, [])
get_be_last n v h =
    ap (get_be {E = TransferError} n) (sym (append-nil (be_bytes n v))) ∙ get_be-be_bytes n v [] h

pub status-read :
    (s : ChunkAckStatus) → (status_byte s < 256 ^ 1) × (status_from_byte (status_byte s) ≡ ok s)
unfolding status_byte status_from_byte
status-read received = (omega arith, refl)
status-read _ = (omega arith, refl)

pub reject-read :
    (r : FileRejectReason) → (reject_byte r < 256 ^ 1) × (reject_from_byte (reject_byte r) ≡ ok r)
unfolding reject_byte reject_from_byte
reject-read declined = (omega arith, refl)
reject-read _ = (omega arith, refl)

pub cancel-read :
    (c : FileCancelReason) → (cancel_byte c < 256 ^ 1) × (cancel_from_byte (cancel_byte c) ≡ ok c)
unfolding cancel_byte cancel_from_byte
cancel-read user = (omega arith, refl)
cancel-read _ = (omega arith, refl)
