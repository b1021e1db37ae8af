-- ===== src/Protocol/Codec/RoundTrip.antt =====
-- Decoding what `FrameCodec` of crates/ceky-protocol/src/codec.rs encodes.
use mathlib.Core.List.{append_assoc}
use ceky_p2p.Common.{
  ℕ, ◌+◌, ◌%◌, ◌^◌, ◌≤◌, ◌<◌, ◌≡◌, ◌∙◌, refl, ap, arith, false, some, List, [], ◌∷◌, ◌++◌, length,
  take, drop, take-append, drop-append, length-append, ltb, eq→==, ==_sym, ne→==, drop-drop, ge→ltb,
  le→leb,
}
use ceky_p2p.Common.Bytes.{be_bytes, from_be, from_be-be_bytes}
use ceky_p2p.Common.Outcome.{ok}
use ceky_p2p.Protocol.Crc.{Crc32c}
use ceky_p2p.Protocol.Types.{
  MessageType, as_byte, Flags, FrameHeader, Frame, magic_bytes, protocol_version, header_size,
  max_payload_size, new_frame, wire_size,
}
use ceky_p2p.Protocol.Types.Laws.{from_byte-as_byte}
use ceky_p2p.Protocol.Codec.{
  waiting, compute_checksum, decode_header, decode_payload, decode_rest, decode, encode,
}

-- The 21 bytes of a header.
abbrev wire_header : FrameHeader → List ℕ
wire_header h =
    be_bytes 2 h.magic
    ++ (h.version
        ∷ as_byte h.msg_type
        ∷ h.flags.bits
        ∷ (be_bytes 4 h.payload_len ++ (be_bytes 8 h.request_id ++ be_bytes 4 h.checksum)))

-- A header that `Frame::new` can make, with any u32 as its checksum.
record IsHeader (h : FrameHeader) : Type 0 where
  magic_eq : h.magic ≡ magic_bytes
  version_eq : h.version ≡ protocol_version
  flags_lt : h.flags.bits < 256
  payload_len-le : h.payload_len ≤ max_payload_size
  request_id-lt : h.request_id < 2 ^ 64
  checksum-lt : h.checksum < 2 ^ 32

one_byte : (b : ℕ) → from_be (b ∷ []) ≡ b
unfolding from_be
one_byte b = omega arith

decode_header-wire : (h : FrameHeader) → IsHeader h → decode_header (wire_header h) ≡ ok h
unfolding decode_header be_bytes
decode_header-wire h v =
    let m : from_be (be_bytes 2 h.magic) ≡ h.magic =
      from_be-be_bytes 2 h.magic (omega (arith, v.magic_eq)) in
    let len : from_be (be_bytes 4 h.payload_len) ≡ h.payload_len =
      from_be-be_bytes 4 h.payload_len (omega (arith, v.payload_len-le)) in
    let id : from_be (be_bytes 8 h.request_id) ≡ h.request_id =
      from_be-be_bytes 8 h.request_id (omega (arith, v.request_id-lt)) in
    let sum : from_be (be_bytes 4 h.checksum) ≡ h.checksum =
      from_be-be_bytes 4 h.checksum (omega (arith, v.checksum-lt)) in
    rw (
      m,
      eq→== h.magic magic_bytes v.magic_eq,
      one_byte h.version,
      eq→== h.version protocol_version v.version_eq,
      one_byte (as_byte h.msg_type),
      from_byte-as_byte h.msg_type,
      one_byte h.flags.bits,
      len,
      le→leb h.payload_len max_payload_size v.payload_len-le,
      id,
      sum,
    )

module _ (crc : Crc32c) where
  -- The second half of `decode` on the bytes of a header, its payload and what follows.
  decode_rest-wire :
      (h : FrameHeader) (body rest : List ℕ)
      → h.payload_len ≡ length body
      → h.checksum ≡ compute_checksum crc h body
      → decode_rest crc (wire_header h ++ (body ++ rest)) (ok h) ≡ record {
        state = waiting;
        src = rest;
        result = ok (some (record { header = h; payload = body }));
      }
  unfolding decode_rest decode_payload be_bytes
  decode_rest-wire h [] rest len sum =
      rw (eq→== h.payload_len 0 len, ==_sym (compute_checksum crc h []) h.checksum sum)
  decode_rest-wire h (x ∷ xs) rest len sum =
      let body : List ℕ = x ∷ xs in
      let src : List ℕ = wire_header h ++ (body ++ rest) in
      let enough : ltb (length src) (header_size + h.payload_len) ≡ false =
        ge→ltb _ _ (omega (arith, length-append body rest)) in
      let taken : take h.payload_len (drop header_size src) ≡ body =
        ap (λ (n : ℕ). take n (body ++ rest)) len ∙ take-append body rest in
      let left : drop (header_size + h.payload_len) src ≡ rest =
        drop-drop header_size h.payload_len src
        ∙ ap (λ (n : ℕ). drop n (body ++ rest)) len
        ∙ drop-append body rest in
      rw (
        ne→== h.payload_len 0 (λ e. omega arith),
        enough,
        taken,
        ==_sym (compute_checksum crc h body) h.checksum sum,
        left,
      )

  decode-wire :
      (h : FrameHeader) (body rest : List ℕ)
      → IsHeader h
      → h.payload_len ≡ length body
      → h.checksum ≡ compute_checksum crc h body
      → decode crc waiting (wire_header h ++ (body ++ rest)) ≡ record {
        state = waiting;
        src = rest;
        result = ok (some (record { header = h; payload = body }));
      }
  unfolding decode be_bytes
  decode-wire h body rest v len sum =
      let long : ltb (length (wire_header h ++ (body ++ rest))) header_size ≡ false =
        ge→ltb _ header_size (omega arith) in
      let head : decode_header (take header_size (wire_header h ++ (body ++ rest))) ≡ ok h =
        decode_header-wire h v in
      rw (long, head) (decode_rest-wire h body rest len sum)

  -- A frame as it arrives: its own, with the checksum filled in.
  abbrev pub sealed : Frame → Frame
  sealed f = record f {
    header = record f.header { checksum = compute_checksum crc f.header f.payload };
  }

  encode-wire :
      (t : MessageType) (flags : Flags) (id : ℕ) (body dst : List ℕ)
      → length body ≤ max_payload_size
      → encode crc (new_frame t flags id body) dst
        ≡ ok (dst ++ (wire_header (sealed (new_frame t flags id body)).header ++ body))
  unfolding encode be_bytes new_frame
  encode-wire t flags id body dst small =
      rw (le→leb (length body % 2 ^ 32) max_payload_size (omega arith))

  sealed-IsHeader :
      (t : MessageType) (flags : Flags) (id : ℕ) (body : List ℕ)
      → flags.bits < 256
      → id < 2 ^ 64
      → length body ≤ max_payload_size
      → IsHeader (sealed (new_frame t flags id body)).header
  unfolding new_frame compute_checksum
  sealed-IsHeader t flags id body hf hid small = record {
    magic_eq = refl;
    version_eq = refl;
    flags_lt = hf;
    payload_len-le = omega arith;
    request_id-lt = hid;
    checksum-lt = crc.crc32c_append-lt _ body;
  }

  -- A frame made by `Frame::new`, of any type, flags, request id and payload up to the limit, is
  -- written behind what the buffer holds, and a decoder that waits for a header reads it back with its
  -- checksum, leaves the bytes behind it, and waits for the next header.
  pub decode-encode :
      (t : MessageType) (flags : Flags) (id : ℕ) (body dst rest : List ℕ)
      → flags.bits < 256
      → id < 2 ^ 64
      → length body ≤ max_payload_size
      → (wire : List ℕ) × (encode crc (new_frame t flags id body) dst ≡ ok (dst ++ wire))
        × (length wire ≡ wire_size (new_frame t flags id body))
        × (decode crc waiting (wire ++ rest) ≡ record {
          state = waiting;
          src = rest;
          result = ok (some (sealed (new_frame t flags id body)));
        })
  decode-encode t flags id body dst rest hf hid small =
      let f : Frame = new_frame t flags id body in
      let v : IsHeader (sealed f).header = sealed-IsHeader t flags id body hf hid small in
      (
        wire_header (sealed f).header ++ body,
        encode-wire t flags id body dst small,
        unfold be_bytes wire_size new_frame in (omega arith),
        unfold new_frame compute_checksum in
            (rw append_assoc (decode-wire (sealed f).header body rest v (omega arith) refl)),
      )
