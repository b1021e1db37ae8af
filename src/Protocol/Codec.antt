-- ===== src/Protocol/Codec.antt =====
-- `FrameCodec` of crates/ceky-protocol/src/codec.rs, over any CRC32C. The receive buffer is the list
-- of the bytes that are in it; reserving room in a buffer and tracing are left out.
pub mod RoundTrip
pub mod Sound
pub mod Stream
mod Tests
use ceky_p2p.Common.{
  ℕ, ◌+◌, ◌-◌, ◌*◌, ◌%◌, ◌^◌, Bool, true, false, not, Option, none, some, List, [], ◌∷◌, ◌++◌, ◌==◌,
  ltb, leb, if◌then◌else◌, length, take, drop,
}
use ceky_p2p.Common.Bytes.{be_bytes}
use ceky_p2p.Common.Outcome.{Outcome, ok, err, panic, ◌>>=◌, ◌>>◌, guard, read_be}
use ceky_p2p.Protocol.Crc.{Crc32c}
use ceky_p2p.Protocol.Types.{
  MessageType, as_byte, from_byte, Flags, FrameHeader, Frame, magic_bytes, protocol_version,
  header_size, max_payload_size,
}

pub data ProtocolError : Type 0 where
  invalid_magic unsupported_version unknown_message_type payload_too_large : ℕ → ProtocolError
  checksum_mismatch : ℕ → ℕ → ProtocolError

pub data DecodeState : Type 0 where
  waiting : DecodeState
  payload : FrameHeader → DecodeState

abbrev or_unknown : ℕ → Option MessageType → Outcome ProtocolError MessageType
or_unknown code none = err (unknown_message_type code)
or_unknown code (some t) = ok t

-- The fields in wire order, and the payload length in its own place.
header_fields : FrameHeader → List ℕ
header_fields h =
    be_bytes 2 h.magic
    ++ (h.version
        ∷ as_byte h.msg_type
        ∷ h.flags.bits
        ∷ (be_bytes 4 h.payload_len ++ be_bytes 8 h.request_id))

pub decode_header : List ℕ → Outcome ProtocolError FrameHeader
decode_header src = do
  magic ← read_be 2 src 0
  guard (magic == magic_bytes) (invalid_magic magic)
  version ← read_be 1 src 2
  guard (version == protocol_version) (unsupported_version version)
  code ← read_be 1 src 3
  msg_type ← or_unknown code (from_byte code)
  flags ← read_be 1 src 4
  payload_len ← read_be 4 src 5
  guard (leb payload_len max_payload_size) (payload_too_large payload_len)
  request_id ← read_be 8 src 9
  checksum ← read_be 4 src 17
  ok (record {
    magic = magic;
    version = version;
    msg_type = msg_type;
    flags = record { bits = flags };
    payload_len = payload_len;
    request_id = request_id;
    checksum = checksum;
  })

-- The codec and the buffer after a call, and what the call returned.
pub record Decoded : Type 0 where
  pub state : DecodeState
  pub src : List ℕ
  pub result : Outcome ProtocolError (Option Frame)

module _ (crc : Crc32c) where
  open crc use {crc32c, crc32c_append}

  pub compute_checksum : FrameHeader → List ℕ → ℕ
  unfolding header_fields
  compute_checksum header body = crc32c_append (crc32c (header_fields header)) body

  -- The arm `DecodeState::Payload(header)`.
  pub decode_payload : FrameHeader → List ℕ → Decoded
  decode_payload header src =
      let total = header_size + header.payload_len in
      if ltb (length src) total
      then record { state = payload header; src = src; result = ok none }
      else (let body = take header.payload_len (drop header_size src) in
          let computed = compute_checksum header body in
          if not (computed == header.checksum)
          then record {
            state = payload header;
            src = src;
            result = err (checksum_mismatch header.checksum computed);
          }
          else record {
            state = waiting;
            src = drop total src;
            result = ok (some (record { header = header; payload = body }));
          })

  -- What the arm `DecodeState::Header` does with the header: with a payload to come, the loop goes
  -- round once more, in the other arm.
  pub decode_rest : List ℕ → Outcome ProtocolError FrameHeader → Decoded
  unfolding decode_payload
  decode_rest src (err e) = record { state = waiting; src = src; result = err e }
  decode_rest src panic = record { state = waiting; src = src; result = panic }
  decode_rest src (ok header) =
      if header.payload_len == 0
      then (let computed = compute_checksum header [] in
          if not (computed == header.checksum)
          then record {
            state = waiting;
            src = src;
            result = err (checksum_mismatch header.checksum computed);
          }
          else record {
            state = waiting;
            src = drop header_size src;
            result = ok (some (record { header = header; payload = [] }));
          })
      else decode_payload header src

  pub decode : DecodeState → List ℕ → Decoded
  unfolding decode_rest
  decode (payload header) src = decode_payload header src
  decode waiting src =
      if ltb (length src) header_size
      then record { state = waiting; src = src; result = ok none }
      else decode_rest src (decode_header (take header_size src))

  -- The checksum is over the fields of the frame's header, and magic, version and length on the wire
  -- are those of the codec and the payload.
  pub encode : Frame → List ℕ → Outcome ProtocolError (List ℕ)
  encode frame dst = do
    let payload_len = length frame.payload % 2 ^ 32
    guard (leb payload_len max_payload_size) (payload_too_large payload_len)
    let checksum = compute_checksum (record frame.header { checksum = 0 }) frame.payload
    ok (
        dst
        ++ (be_bytes 2 magic_bytes
            ++ (protocol_version
                ∷ as_byte frame.header.msg_type
                ∷ frame.header.flags.bits
                ∷ (be_bytes 4 payload_len
                    ++ (be_bytes 8 frame.header.request_id
                        ++ (be_bytes 4 checksum ++ frame.payload))))))
