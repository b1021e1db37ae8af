-- ===== src/Protocol/Transfer/Tests.antt =====
-- Messages and bitmaps of crates/ceky-protocol/src/transfer.rs at concrete inputs.
use ceky_p2p.Common.{
  ℕ, ◌-◌, ◌*◌, ◌≤◌, ◌<◌, ◌≡◌, refl, arith, true, false, List, [], ◌∷◌, replicate, length,
  if◌then◌else◌, ◌==◌,
}
use ceky_p2p.Common.Outcome.{ok}
use ceky_p2p.Common.Reader.{Safe}
use ceky_p2p.Protocol.Transfer.Utf8.{is_utf8, utf8_from}
use ceky_p2p.Protocol.Transfer.{
  compute_total_chunks, FileOffer, new_offer, encode_offer, decode_offer, FileAccept, decode_accept,
}
use ceky_p2p.Protocol.Transfer.Chunks.{
  decode_reject, FileChunk, decode_chunk, FileChunkAck, bad_hash, decode_ack, decode_complete,
  decode_cancel,
}
use ceky_p2p.Protocol.Transfer.Bitmap.{
  bitmap_is_missing, bitmap_set_missing, bitmap_is_missing-bitmap_set_missing,
  compute_total_chunks-bounds,
}
use ceky_p2p.Protocol.Transfer.RoundTrip.{decode_offer-encode_offer}
use ceky_p2p.Protocol.Transfer.Total.{decode-Safe}

abbrev id : List ℕ
id = replicate 16 0xAA

abbrev hash : List ℕ
hash = replicate 32 0xAB

-- The name is "é.bin".
abbrev offer : FileOffer
offer = record {
  transfer_id = id;
  file_name = 0xC3 ∷ 0xA9 ∷ 0x2E ∷ 0x62 ∷ 0x69 ∷ 0x6E ∷ [];
  file_size = 10_000;
  chunk_size = 1024;
  total_chunks = 10;
  file_hash = hash;
}

offer-new : new_offer id offer.file_name 10_000 1024 hash ≡ ok offer
unfolding new_offer compute_total_chunks
offer-new = refl

-- 2^32 chunks are counted as none.
chunks-wrap : compute_total_chunks 0x1_0000_0000 1 ≡ 0
unfolding compute_total_chunks
chunks-wrap = refl

surrogate-refused : is_utf8 (0xED ∷ 0xA0 ∷ 0x80 ∷ []) ≡ false
unfolding is_utf8 utf8_from
surrogate-refused = refl

name-is_utf8 : is_utf8 offer.file_name ≡ true
unfolding is_utf8 utf8_from
name-is_utf8 = refl

decode_offer-encode_offer_example : decode_offer (encode_offer offer) ≡ ok offer
decode_offer-encode_offer_example =
    decode_offer-encode_offer offer refl refl (omega arith) (omega arith) (omega arith)
      (omega arith) name-is_utf8 (λ e. omega arith)

abbrev accept : FileAccept
accept = record { transfer_id = id; resume = true; missing_bitmap = 5 ∷ 1 ∷ [] }

abbrev chunk : FileChunk
chunk = record { transfer_id = id; chunk_index = 3; chunk_hash = hash; data_bytes = 1 ∷ 2 ∷ [] }

abbrev ack : FileChunkAck
ack = record { transfer_id = id; chunk_index = 3; status = bad_hash }

decode-Safe_example :
    Safe (decode_offer (1 ∷ []))
    × Safe (decode_accept (1 ∷ []))
    × Safe (decode_reject (1 ∷ []))
    × Safe (decode_chunk (1 ∷ []))
    × Safe (decode_ack (1 ∷ []))
    × Safe (decode_complete (1 ∷ []))
    × Safe (decode_cancel (1 ∷ []))
decode-Safe_example = decode-Safe (1 ∷ [])

abbrev bits : List ℕ
bits = 255 ∷ 1 ∷ []

bitmap_is_missing-bitmap_set_missing_example :
    (bitmap_is_missing (bitmap_set_missing bits 3 false) 8
      ≡ (if 3 == 8 then false else bitmap_is_missing bits 8))
    × (length (bitmap_set_missing bits 3 false) ≡ length bits)
bitmap_is_missing-bitmap_set_missing_example =
    bitmap_is_missing-bitmap_set_missing bits 3 8 false (omega arith) (omega arith)

compute_total_chunks-bounds_example :
    (10_000 ≤ 1024 * compute_total_chunks 10_000 1024)
    × (1024 * (compute_total_chunks 10_000 1024 - 1) < 10_000)
compute_total_chunks-bounds_example =
    compute_total_chunks-bounds 10_000 1024 (omega arith) (omega arith) (omega arith)
