-- ===== src/Protocol/Codec/Stream.antt =====
-- `FrameCodec::decode` of crates/ceky-protocol/src/codec.rs on a buffer that grows: what it answers does
-- not depend on how the bytes were cut into reads.
use ceky_p2p.Common.{
  ℕ, ◌+◌, ◌^◌, ◌≤◌, ◌<◌, ◌≡◌, ◌≢◌, ◌⊎◌, inl, inr, refl, sym, ◌∙◌, ap, arith, false, none, some,
  List, [], ◌∷◌, ◌++◌, Bool-cases, length, length-append, length-drop, take, drop, take-append_le,
  drop-append_le, ltb, ge→ltb, lt→ltb, ◌==◌,
}
use mathlib.Core.List.{append_assoc}
use native.Mathlib.Decide.{dec_lt}
use ceky_p2p.Common.Outcome.{Outcome, ok, err, panic, ok-injective}
use ceky_p2p.Protocol.Crc.{Crc32c}
use ceky_p2p.Protocol.Types.{
  MessageType, Flags, FrameHeader, header_size, max_payload_size, new_frame,
}
use ceky_p2p.Protocol.Codec.{
  ProtocolError, DecodeState, waiting, payload, Decoded, decode_header, decode_payload, decode_rest,
  decode, compute_checksum, encode,
}
use ceky_p2p.Protocol.Codec.RoundTrip.{sealed, decode-encode}

-- A call that asks for more bytes leaves the buffer whole, and when more have come the codec answers
-- as it would have answered had they been there at first. Any other answer stands, and the bytes that
-- come behind the buffer stay behind what the call left of it.
abbrev pub Resumes :
    (List ℕ → Decoded) → (DecodeState → List ℕ → Decoded) → List ℕ → List ℕ → Type 0
Resumes run resume src more =
    (((run src).result ≡ ok none)
      × ((run src).src ≡ src)
      × (resume (run src).state (src ++ more) ≡ run (src ++ more)))
    ⊎ (((run src).result ≢ ok none)
        × ((run (src ++ more)).state ≡ (run src).state)
        × ((run (src ++ more)).src ≡ (run src).src ++ more)
        × ((run (src ++ more)).result ≡ (run src).result))

module _ (crc : Crc32c) where
  decode_payload-more :
      (h : FrameHeader) (src more : List ℕ) → Resumes (decode_payload crc h) (decode crc) src more
  unfolding decode_payload decode
  decode_payload-more h src more = elim (dec_lt (length src) total) [
    | yes q ↦ inl (rw (lt→ltb (length src) total q) (refl, refl, refl))
    | no q ↦
        let longer : ltb (length (src ++ more)) total ≡ false =
          ge→ltb _ total (omega (arith, length-append src more)) in
        let same : take h.payload_len (drop header_size (src ++ more))
            ≡ take h.payload_len (drop header_size src) =
          ap (take h.payload_len) (drop-append_le header_size src more (omega arith))
          ∙ take-append_le h.payload_len (drop header_size src) more
              (omega (arith, length-drop header_size src)) in
        let left : drop total (src ++ more) ≡ drop total src ++ more =
          drop-append_le total src more (omega arith) in
        rw (ge→ltb (length src) total (omega arith), longer, same, left)
          (elim (Bool-cases
            (compute_checksum crc h (take h.payload_len (drop header_size src)) == h.checksum)) [
              | inl e ↦ rw e (inr (λ p. cc, refl, refl, refl))
              | inr e ↦ rw e (inr (λ p. cc, refl, refl, refl))
            ])
  ]
    where
      total : ℕ
      total = header_size + h.payload_len

  decode_rest-more :
      (src more : List ℕ) (r : Outcome ProtocolError FrameHeader)
      → header_size ≤ length src
      → Resumes (λ s. decode_rest crc s r) (decode crc) src more
  unfolding decode_rest
  decode_rest-more src more (err e) h = inr (λ p. cc, refl, refl, refl)
  decode_rest-more src more panic h = inr (λ p. cc, refl, refl, refl)
  decode_rest-more src more (ok header) h = elim (Bool-cases (header.payload_len == 0)) [
    | inl empty ↦
        rw (empty, drop-append_le header_size src more h)
          (elim (Bool-cases (compute_checksum crc header [] == header.checksum)) [
            | inl e ↦ rw e (inr (λ p. cc, refl, refl, refl))
            | inr e ↦ rw e (inr (λ p. cc, refl, refl, refl))
          ])
    | inr filled ↦ rw filled (decode_payload-more header src more)
  ]

  -- A call that asks for more bytes is resumed by the next as if they had been there at first, and any
  -- other answer does not depend on the bytes behind the frame.
  pub decode-more :
      (st : DecodeState) (src more : List ℕ) → Resumes (decode crc st) (decode crc) src more
  unfolding decode
  decode-more (payload h) src more = decode_payload-more h src more
  decode-more waiting src more = elim (dec_lt (length src) header_size) [
    | yes q ↦ inl (rw (lt→ltb (length src) header_size q) (refl, refl, refl))
    | no q ↦
        let longer : ltb (length (src ++ more)) header_size ≡ false =
          ge→ltb _ header_size (omega (arith, length-append src more)) in
        let same : take header_size (src ++ more) ≡ take header_size src =
          take-append_le header_size src more (omega arith) in
        rw (ge→ltb (length src) header_size (omega arith), longer, same)
          (decode_rest-more src more (decode_header (take header_size src)) (omega arith))
  ]

  -- A frame that has arrived in part, up to any byte before its last, makes the codec ask for more
  -- without touching the buffer; when the rest has come, whatever follows it, the codec gives the frame.
  pub decode_part :
      (t : MessageType) (flags : Flags) (id : ℕ) (body front : List ℕ) (x : ℕ) (back rest : List ℕ)
      → flags.bits < 256
      → id < 2 ^ 64
      → length body ≤ max_payload_size
      → encode crc (new_frame t flags id body) [] ≡ ok (front ++ (x ∷ back))
      → let d = decode crc waiting front in
        (d.result ≡ ok none)
        × (d.src ≡ front)
        × (decode crc d.state (front ++ ((x ∷ back) ++ rest)) ≡ record {
          state = waiting;
          src = rest;
          result = ok (some (sealed crc (new_frame t flags id body)));
        })
  decode_part t flags id body front x back rest hf hid small e =
      let more : List ℕ = (x ∷ back) ++ rest in
      let (wire, sent, _, arrives) = decode-encode crc t flags id body [] rest hf hid small in
      let cut : wire ++ rest ≡ front ++ more =
        ap (λ (w : List ℕ). w ++ rest) (ok-injective (sym sent ∙ e))
        ∙ append_assoc front (x ∷ back) rest in
      let whole : decode crc waiting (front ++ more) ≡ record {
        state = waiting;
        src = rest;
        result = ok (some (sealed crc (new_frame t flags id body)));
      } =
        ap (decode crc waiting) (sym cut) ∙ arrives in
      elim (decode-more waiting front more) [
        | inl (asks, kept, resumes) ↦ (asks, kept, resumes ∙ whole)
        | inr (_, _, left, _) ↦ absurd (
            omega (
              arith,
              ap length (sym (ap (λ (d : Decoded). d.src) whole) ∙ left),
              length-append (decode crc waiting front).src more,
              length-append (x ∷ back) rest,
            ))
      ]
