-- ===== src/Nat/Stun/Shown.antt =====
-- The responses that crates/ceky-nat/src/stun.rs accepts, and the address that it reads from them.
use mathlib.Core.List.{append_assoc}
use ceky_p2p.Common.{
  ℕ, ◌+◌, ◌/◌, ◌^◌, ◌≤◌, ◌<◌, ◌≡◌, refl, ap, ◌∙◌, arith, inr, true, bit_xor, List, [], ◌∷◌, ◌++◌,
  leb, le→leb, length, take, drop, All, length-append, take-append_of, drop-append_of, drop-drop,
}
use ceky_p2p.Common.Bytes.{IsByte, be_bytes, length-be_bytes, from_be, from_be-be_bytes}
use ceky_p2p.Common.Outcome.{ok, slice}
use ceky_p2p.Crypto.PeerId.{id_eq, xor_distance}
use ceky_p2p.Crypto.PeerId.Xor.{bit_xor_twice, bit_xor-lt}
use ceky_p2p.Dht.KBucket.Peers.{id_eq_iff}
use ceky_p2p.Protocol.Find.{v4}
use ceky_p2p.Nat.Relay.{NatError}
use ceky_p2p.Nat.Stun.{
  binding_response, magic_cookie, attr_mapped_address, attr_xor_mapped_address,
  parse_mapped_address, parse_xor_mapped_address, attribute_value, attributes, looped,
  parse_binding_response,
}
use ceky_p2p.Nat.Stun.Mapped.{
  attribute_bytes, response_bytes, all_bytes, IsUnknown, length-attribute_bytes, attributes_found,
}

-- The value of a MAPPED-ADDRESS (section 15.1), and of an XOR-MAPPED-ADDRESS (section 15.2).
abbrev pub mapped_value : List ℕ → ℕ → List ℕ
mapped_value ip port = (0 ∷ 1 ∷ []) ++ (be_bytes 2 port ++ ip)

abbrev pub xor_mapped_value : List ℕ → ℕ → List ℕ
xor_mapped_value ip port =
    mapped_value (xor_distance ip (be_bytes 4 magic_cookie)) (bit_xor port (magic_cookie / 2 ^ 16))

mapped-shows :
    (a b c d port : ℕ)
    → port < 2 ^ 16
    → parse_mapped_address (mapped_value (a ∷ b ∷ c ∷ d ∷ []) port)
      ≡ ok (v4 (a ∷ b ∷ c ∷ d ∷ []) port)
unfolding parse_mapped_address be_bytes from_be
mapped-shows a b c d port h =
    let port_read : from_be (be_bytes 2 port) ≡ port = from_be-be_bytes 2 port (omega arith) in
    rw port_read refl

xor_mapped-shows :
    (a b c d port : ℕ)
    → All IsByte (a ∷ b ∷ c ∷ d ∷ [])
    → port < 2 ^ 16
    → parse_xor_mapped_address (xor_mapped_value (a ∷ b ∷ c ∷ d ∷ []) port)
      ≡ ok (v4 (a ∷ b ∷ c ∷ d ∷ []) port)
unfolding parse_xor_mapped_address be_bytes xor_distance from_be
xor_mapped-shows a b c d port ip h =
    let hidden = bit_xor port (magic_cookie / 2 ^ 16) in
    let small : hidden < 2 ^ 16 = bit_xor-lt 16 port (magic_cookie / 2 ^ 16) h (omega arith) in
    let port_read : from_be (be_bytes 2 hidden) ≡ hidden =
      from_be-be_bytes 2 hidden (omega arith) in
    rw
      (
        port_read,
        bit_xor_twice 16 port (magic_cookie / 2 ^ 16) h (omega arith),
        bit_xor_twice 8 a 0x21 ip.0 (omega arith),
        bit_xor_twice 8 b 0x12 ip.1.0 (omega arith),
        bit_xor_twice 8 c 0xA4 ip.1.1.0 (omega arith),
        bit_xor_twice 8 d 0x42 ip.1.1.1.0 (omega arith),
      )
      refl

-- The header of a response is accepted, and the attributes are read from byte 20.
parse-response_bytes :
    (txn_id body : List ℕ)
    → length txn_id ≡ 12
    → length body < 2 ^ 16
    → parse_binding_response (response_bytes txn_id body) txn_id
      ≡ looped (
          attributes
            (length (response_bytes txn_id body))
            (response_bytes txn_id body)
            20
            (20 + length body))
unfolding parse_binding_response
parse-response_bytes txn_id body long short =
    rw
      (
        fits 20 (omega arith),
        fits 2 (omega arith),
        fits 8 (omega arith),
        fits 4 (omega arith),
        type_read,
        cookie_read,
        txn_read,
        same,
        length_read,
        fits (20 + length body) (omega arith),
      )
      refl
  where
    type : List ℕ
    type = be_bytes 2 binding_response

    len : List ℕ
    len = be_bytes 2 (length body)

    cookie : List ℕ
    cookie = be_bytes 4 magic_cookie

    bytes : List ℕ
    bytes = response_bytes txn_id body

    size : length bytes ≡ 20 + length body
    size = omega (
      arith,
      length-append type (len ++ (cookie ++ (txn_id ++ body))),
      length-append len (cookie ++ (txn_id ++ body)),
      length-append cookie (txn_id ++ body),
      length-append txn_id body,
      length-be_bytes 2 binding_response,
      length-be_bytes 2 (length body),
      length-be_bytes 4 magic_cookie,
      long,
    )

    fits : (n : ℕ) → n ≤ 20 + length body → leb n (length bytes) ≡ true
    fits n h = le→leb n (length bytes) (omega (arith, size))

    type_read : from_be (take 2 bytes) ≡ binding_response
    type_read =
        ap from_be (
          take-append_of 2 type (len ++ (cookie ++ (txn_id ++ body)))
            (length-be_bytes 2 binding_response))
        ∙ from_be-be_bytes 2 binding_response (omega arith)

    after_type : drop 2 bytes ≡ len ++ (cookie ++ (txn_id ++ body))
    after_type =
        drop-append_of 2 type (len ++ (cookie ++ (txn_id ++ body)))
          (length-be_bytes 2 binding_response)

    length_read : from_be (take 2 (drop 2 bytes)) ≡ length body
    length_read =
        ap (λ x. from_be (take 2 x)) after_type
        ∙ ap from_be
            (take-append_of 2 len (cookie ++ (txn_id ++ body)) (length-be_bytes 2 (length body)))
        ∙ from_be-be_bytes 2 (length body) (omega arith)

    after_length : drop 4 bytes ≡ cookie ++ (txn_id ++ body)
    after_length =
        drop-drop 2 2 bytes
        ∙ ap (drop 2) after_type
        ∙ drop-append_of 2 len (cookie ++ (txn_id ++ body)) (length-be_bytes 2 (length body))

    cookie_read : from_be (take 4 (drop 4 bytes)) ≡ magic_cookie
    cookie_read =
        ap (λ x. from_be (take 4 x)) after_length
        ∙ ap from_be (take-append_of 4 cookie (txn_id ++ body) (length-be_bytes 4 magic_cookie))
        ∙ from_be-be_bytes 4 magic_cookie (omega arith)

    txn_read : take 12 (drop 8 bytes) ≡ txn_id
    txn_read =
        ap (take 12) (
          drop-drop 4 4 bytes
          ∙ ap (drop 4) after_length
          ∙ drop-append_of 4 cookie (txn_id ++ body) (length-be_bytes 4 magic_cookie))
        ∙ take-append_of 12 txn_id body long

    same : id_eq txn_id txn_id ≡ true
    same = (id_eq_iff txn_id txn_id).1 refl

length-all_bytes : (unknown : List (ℕ × List ℕ)) → length unknown ≤ length (all_bytes unknown)
length-all_bytes [] = omega arith
length-all_bytes (u ∷ more) = omega (
  arith,
  length-append (attribute_bytes u.0 u.1) (all_bytes more),
  length-attribute_bytes u.0 u.1,
  length-all_bytes more,
)

module _ (txn_id : List ℕ) (unknown : List (ℕ × List ℕ)) (a b c d port : ℕ) (rest : List ℕ)
    (long : length txn_id ≡ 12) (others : All IsUnknown unknown)
    (ip : All IsByte (a ∷ b ∷ c ∷ d ∷ [])) (small : port < 2 ^ 16) where
  -- An attribute of a known kind with a value that its parser reads, behind any that are not known.
  parse_found :
      (t : ℕ) (value : List ℕ)
      → t < 2 ^ 16
      → length value ≡ 8
      → ((bytes : List ℕ) (offset : ℕ)
          → slice {E = NatError} offset (offset + length value) bytes ≡ ok value
          → attribute_value t (length value) offset bytes ≡ ok (inr (v4 (a ∷ b ∷ c ∷ d ∷ []) port)))
      → length (all_bytes unknown) + length rest + 12 < 2 ^ 16
      → parse_binding_response
          (response_bytes txn_id (all_bytes unknown ++ (attribute_bytes t value ++ rest)))
          txn_id
        ≡ ok (v4 (a ∷ b ∷ c ∷ d ∷ []) port)
  unfolding looped
  parse_found t value ht hv shows short =
      let body = all_bytes unknown ++ (attribute_bytes t value ++ rest) in
      let header =
        be_bytes 2 binding_response
        ++ (be_bytes 2 (length body) ++ (be_bytes 4 magic_cookie ++ txn_id)) in
      let split : response_bytes txn_id body ≡ header ++ body = simp append_assoc in
      let header_size : length header ≡ 20 = omega (
        arith,
        long,
        length-append (be_bytes 2 binding_response)
            (be_bytes 2 (length body) ++ (be_bytes 4 magic_cookie ++ txn_id)),
        length-append (be_bytes 2 (length body)) (be_bytes 4 magic_cookie ++ txn_id),
        length-append (be_bytes 4 magic_cookie) txn_id,
        length-be_bytes 2 binding_response,
        length-be_bytes 2 (length body),
        length-be_bytes 4 magic_cookie,
      ) in
      let body_size : length body ≡ length (all_bytes unknown) + 12 + length rest = omega (
        arith,
        hv,
        length-append (all_bytes unknown) (attribute_bytes t value ++ rest),
        length-append (attribute_bytes t value) rest,
        length-attribute_bytes t value,
      ) in
      let loop =
        attributes_found t value (v4 (a ∷ b ∷ c ∷ d ∷ []) port) rest ht (omega arith) shows unknown
          (length (header ++ body)) 20 (20 + length body) header header_size others (omega arith)
          (omega (arith, length-append header body, length-all_bytes unknown)) in
      parse-response_bytes txn_id body long (omega arith) ∙ rw (split, loop) refl

  -- For a transaction id of 12 bytes, an IPv4 address of four bytes, a port of 16 bits and a response of
  -- at most 64 KiB, the parser gives the address and the port from an XOR-MAPPED-ADDRESS, and from a
  -- MAPPED-ADDRESS, that stands behind any attributes of other kinds and before any bytes.
  pub parse_binding_response-mapped :
      length (all_bytes unknown) + length rest + 12 < 2 ^ 16
      → (parse_binding_response
            (response_bytes txn_id (
              all_bytes unknown
              ++ (attribute_bytes attr_xor_mapped_address
                    (xor_mapped_value (a ∷ b ∷ c ∷ d ∷ []) port)
                  ++ rest)))
            txn_id
          ≡ ok (v4 (a ∷ b ∷ c ∷ d ∷ []) port))
        × (parse_binding_response
              (response_bytes txn_id (
                all_bytes unknown
                ++ (attribute_bytes attr_mapped_address (mapped_value (a ∷ b ∷ c ∷ d ∷ []) port)
                    ++ rest)))
              txn_id
            ≡ ok (v4 (a ∷ b ∷ c ∷ d ∷ []) port))
  unfolding attribute_value be_bytes xor_distance
  parse_binding_response-mapped short =
      let address = a ∷ b ∷ c ∷ d ∷ [] in
      let xor_value = xor_mapped_value address port in
      let plain_value = mapped_value address port in
      let xor_size : length xor_value ≡ 8 = refl in
      let plain_size : length plain_value ≡ 8 = refl in
      (
        parse_found attr_xor_mapped_address xor_value (omega arith) xor_size
            (λ bytes offset there. rw (there, xor_mapped-shows a b c d port ip small) refl) short,
        parse_found attr_mapped_address plain_value (omega arith) plain_size
            (λ bytes offset there. rw (there, mapped-shows a b c d port small) refl) short,
      )
