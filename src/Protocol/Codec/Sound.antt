-- ===== src/Protocol/Codec/Sound.antt =====
-- What `FrameCodec::decode` of crates/ceky-protocol/src/codec.rs lets through, on any bytes.
use ceky_p2p.Common.{
  ℕ, ◌+◌, ◌≤◌, ◌≡◌, ◌≢◌, inl, inr, refl, sym, ap, ◌∙◌, arith, none, some, List, [], ◌++◌,
  Bool-cases, length, length-take, length-drop, take, drop, drop-drop, take-append-drop, Option,
  ge→ltb, lt→ltb, ◌==◌, ==→eq,
}
use native.Mathlib.Decide.{dec_lt}
use ceky_p2p.Common.Outcome.{Outcome, ok, err, panic}
use ceky_p2p.Protocol.Crc.{Crc32c}
use ceky_p2p.Protocol.Types.{
  FrameHeader, Frame, magic_bytes, protocol_version, header_size, max_payload_size, wire_size,
}
use ceky_p2p.Protocol.Codec.{
  ProtocolError, DecodeState, waiting, payload, Decoded, decode_header, decode_payload, decode_rest,
  decode, compute_checksum,
}

-- Of this protocol and version, with a payload within the limit.
pub record IsAccepted (h : FrameHeader) : Type 0 where
  pub magic_eq : h.magic ≡ magic_bytes
  pub version_eq : h.version ≡ protocol_version
  pub payload_len-le : h.payload_len ≤ max_payload_size

abbrev pub IsState : DecodeState → Type 0
IsState waiting = Unit {0}
IsState (payload h) = IsAccepted h

decode_header-IsAccepted :
    (src : List ℕ) (h : FrameHeader) → decode_header src ≡ ok h → IsAccepted h
unfolding decode_header
decode_header-IsAccepted src h e = ground arith

decode_header-ne-panic : (src : List ℕ) → header_size ≤ length src → decode_header src ≢ panic
unfolding decode_header
decode_header-ne-panic src h = ground arith

module _ (crc : Crc32c) where
  -- What a call may answer: a frame has an accepted header, a payload of the length that the header
  -- names and the checksum of both, and its bytes are gone from the buffer.
  abbrev pub Answers : List ℕ → Decoded → Outcome ProtocolError (Option Frame) → Type 0
  Answers src d (ok none) = d.src ≡ src
  Answers src d (ok (some f)) =
      (d.state ≡ waiting)
      × IsAccepted f.header
      × (length f.payload ≡ f.header.payload_len)
      × (f.header.checksum ≡ compute_checksum crc f.header f.payload)
      × (f.payload ++ d.src ≡ drop header_size src)
      × (length d.src + wire_size f ≡ length src)
  Answers src d (err e) = d.src ≡ src
  Answers src d panic = ⊥

  abbrev pub IsSound : List ℕ → Decoded → Type 0
  IsSound src d = IsState d.state × Answers src d d.result

  decode_payload-IsSound :
      (h : FrameHeader) (src : List ℕ) → IsAccepted h → IsSound src (decode_payload crc h src)
  unfolding decode_payload wire_size
  decode_payload-IsSound h src v = elim (dec_lt (length src) total) [
    | yes q ↦ rw (lt→ltb (length src) total q) (v, refl)
    | no q ↦
        let body : List ℕ = take h.payload_len (drop header_size src) in
        let sum : ℕ = compute_checksum crc h body in
        let len : length body ≡ h.payload_len =
          omega (
            arith,
            length-take h.payload_len (drop header_size src),
            length-drop header_size src,
          ) in
        let parts : body ++ drop total src ≡ drop header_size src =
          ap (◌++◌ body) (drop-drop header_size h.payload_len src)
          ∙ take-append-drop h.payload_len (drop header_size src) in
        let size : length (drop total src) + (header_size + length body) ≡ length src =
          omega (arith, length-drop total src, len) in
        rw (ge→ltb (length src) total (omega arith)) (elim (Bool-cases (sum == h.checksum)) [
          | inl e ↦ rw e (tt, (refl, v, len, sym (==→eq sum h.checksum e), parts, size))
          | inr e ↦ rw e (v, refl)
        ])
  ]
    where
      total : ℕ
      total = header_size + h.payload_len

  decode_rest-IsSound :
      (src : List ℕ) (r : Outcome ProtocolError FrameHeader)
      → header_size ≤ length src
      → r ≢ panic
      → ((h : FrameHeader) → r ≡ ok h → IsAccepted h)
      → IsSound src (decode_rest crc src r)
  unfolding decode_rest wire_size
  decode_rest-IsSound src (err e) h np v = (tt, refl)
  decode_rest-IsSound src panic h np v = absurd (np refl)
  decode_rest-IsSound src (ok header) h np v = elim (Bool-cases (header.payload_len == 0)) [
    | inl empty ↦
        let sum : ℕ = compute_checksum crc header [] in
        let none_left : header.payload_len ≡ 0 = ==→eq header.payload_len 0 empty in
        let size : length (drop header_size src) + header_size ≡ length src =
          omega (arith, length-drop header_size src) in
        rw empty (elim (Bool-cases (sum == header.checksum)) [
          | inl e ↦ rw e (
            tt,
            (refl, v header refl, sym none_left, sym (==→eq sum header.checksum e), refl, size),
          )
          | inr e ↦ rw e (tt, refl)
        ])
    | inr filled ↦ rw filled (decode_payload-IsSound header src (v header refl))
  ]

  -- On any bytes, from a state that holds no header or an accepted one, a call does not panic, leaves
  -- such a state, drops bytes from the buffer only when it gives a frame, and gives a frame only if
  -- magic, version, size and checksum are right.
  pub decode-IsSound :
      (st : DecodeState) (src : List ℕ) → IsState st → IsSound src (decode crc st src)
  unfolding decode
  decode-IsSound (payload h) src v = decode_payload-IsSound h src v
  decode-IsSound waiting src v = elim (dec_lt (length src) header_size) [
    | yes q ↦ rw (lt→ltb (length src) header_size q) (tt, refl)
    | no q ↦
        let head : List ℕ = take header_size src in
        rw (ge→ltb (length src) header_size (omega arith)) (
          decode_rest-IsSound src (decode_header head) (omega arith)
            (decode_header-ne-panic head (omega (arith, length-take header_size src)))
            (decode_header-IsAccepted head))
  ]
