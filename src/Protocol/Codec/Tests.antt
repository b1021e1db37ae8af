-- ===== src/Protocol/Codec/Tests.antt =====
-- `FrameCodec` of crates/ceky-protocol/src/codec.rs on small inputs, with a checksum that adds bytes.
use native.Mathlib.Nat.{mod-lt}
use ceky_p2p.Common.{ℕ, ◌+◌, ◌%◌, ◌^◌, ◌≡◌, refl, arith, some, none, List, [], ◌∷◌, ◌++◌, length}
use ceky_p2p.Common.Bytes.{be_bytes, from_be}
use ceky_p2p.Common.Outcome.{ok, err}
use ceky_p2p.Protocol.Crc.{Crc32c}
use ceky_p2p.Protocol.Types.{ping, data_message, as_byte, empty_flags, new_frame, wire_size}
use ceky_p2p.Protocol.Codec.{
  waiting, invalid_magic, header_fields, compute_checksum, decode_header, decode_rest, decode,
  encode,
}
use ceky_p2p.Protocol.Codec.RoundTrip.{sealed, decode-encode}
use ceky_p2p.Protocol.Codec.Sound.{IsSound, decode-IsSound}
use ceky_p2p.Protocol.Codec.Stream.{decode_part}

abbrev total : List ℕ → ℕ
total [] = 0
total (b ∷ bs) = b + total bs

-- A checksum that is a u32: the sum of all bytes, cut to 32 bits.
abbrev adding : Crc32c
adding = record {
  crc32c = λ bs. total bs % 2 ^ 32;
  crc32c_append = λ c bs. (c + total bs) % 2 ^ 32;
  crc32c_append-lt = λ c bs. mod-lt (c + total bs) (omega arith);
}

-- A PING with request id 7.
abbrev ping_bytes : List ℕ
ping_bytes =
    0xCE ∷ 0x4B ∷ 1 ∷ 2 ∷ 0 ∷ 0 ∷ 0 ∷ 0 ∷ 0 ∷ 0 ∷ 0 ∷ 0 ∷ 0 ∷ 0 ∷ 0 ∷ 0 ∷ 7 ∷ 0 ∷ 0 ∷ 1 ∷ 0x23 ∷ []

encode_ping : encode adding (new_frame ping empty_flags 7 []) [] ≡ ok ping_bytes
unfolding encode new_frame compute_checksum header_fields be_bytes as_byte
encode_ping = refl

decode_wrong_magic :
    (decode adding waiting (0xDE ∷ 0xAD ∷ ping_bytes)).result ≡ err (invalid_magic 0xDEAD)
unfolding decode decode_rest decode_header from_be
decode_wrong_magic = refl

decode-encode_example :
    (wire : List ℕ) × (encode adding (new_frame data_message empty_flags 1 (5 ∷ 6 ∷ [])) (9 ∷ [])
      ≡ ok ((9 ∷ []) ++ wire))
    × (length wire ≡ wire_size (new_frame data_message empty_flags 1 (5 ∷ 6 ∷ [])))
    × (decode adding waiting (wire ++ (8 ∷ [])) ≡ record {
      state = waiting;
      src = 8 ∷ [];
      result = ok (some (sealed adding (new_frame data_message empty_flags 1 (5 ∷ 6 ∷ []))));
    })
decode-encode_example =
    decode-encode adding data_message empty_flags 1 (5 ∷ 6 ∷ []) (9 ∷ []) (8 ∷ []) (omega arith)
      (omega arith) (omega arith)

decode-IsSound_example : IsSound adding ping_bytes (decode adding waiting ping_bytes)
decode-IsSound_example = decode-IsSound adding waiting ping_bytes tt

decode_part_example :
    let d = decode adding waiting (0xCE ∷ 0x4B ∷ []) in
    (d.result ≡ ok none)
    × (d.src ≡ 0xCE ∷ 0x4B ∷ [])
    × (decode adding d.state (ping_bytes ++ (3 ∷ [])) ≡ record {
      state = waiting;
      src = 3 ∷ [];
      result = ok (some (sealed adding (new_frame ping empty_flags 7 [])));
    })
decode_part_example =
    decode_part adding ping empty_flags 7 [] (0xCE ∷ 0x4B ∷ []) 1
      (2 ∷ 0 ∷ 0 ∷ 0 ∷ 0 ∷ 0 ∷ 0 ∷ 0 ∷ 0 ∷ 0 ∷ 0 ∷ 0 ∷ 0 ∷ 7 ∷ 0 ∷ 0 ∷ 1 ∷ 0x23 ∷ []) (3 ∷ [])
      (omega arith) (omega arith) (omega arith) encode_ping
