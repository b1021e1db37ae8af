-- ===== src/Nat/Stun/Ends.antt =====
-- The parser of crates/ceky-nat/src/stun.rs ends and does not panic, and what it accepts answers the
-- request.
use ceky_p2p.Common.{
  ℕ, zero, suc, ◌+◌, ◌-◌, ◌≤◌, ◌<◌, ◌≡◌, refl, arith, ◌⊎◌, inl, inr, Bool-cases, Option, some, List,
  leb, le→leb, ◌==◌, ==→eq, length, take, drop,
}
use ceky_p2p.Common.Bytes.{from_be}
use ceky_p2p.Common.Outcome.{Outcome, ok, err, panic, ◌>>=◌}
use ceky_p2p.Common.Reader.{Safe}
use ceky_p2p.Crypto.PeerId.{id_eq}
use ceky_p2p.Dht.KBucket.Peers.{id_eq_iff}
use ceky_p2p.Protocol.Find.{SocketAddr}
use ceky_p2p.Nat.Relay.{NatError, stun_failed}
use ceky_p2p.Nat.Stun.{
  binding_response, magic_cookie, attr_mapped_address, attr_xor_mapped_address,
  parse_mapped_address, parse_xor_mapped_address, attribute_value, attribute, go_on, attributes,
  looped, parse_binding_response,
}

parse_mapped_address-Safe : (bytes : List ℕ) → Safe (parse_mapped_address bytes)
unfolding parse_mapped_address
parse_mapped_address-Safe bytes = elim (Bool-cases (leb 8 (length bytes))) [
  | inr short ↦ rw short (λ e. cc)
  | inl long ↦
      let low : 8 ≤ length bytes = ground (arith, long) in
      rw (long, le→leb 2 (length bytes) (omega arith), le→leb 4 (length bytes) (omega arith))
        (elim (Bool-cases (from_be (take 1 (drop 1 bytes)) == 1)) [
          | inl v4_family ↦ rw v4_family (λ e. cc)
          | inr other ↦ rw other (λ e. cc)
        ])
]

parse_xor_mapped_address-Safe : (bytes : List ℕ) → Safe (parse_xor_mapped_address bytes)
unfolding parse_xor_mapped_address
parse_xor_mapped_address-Safe bytes = elim (Bool-cases (leb 8 (length bytes))) [
  | inr short ↦ rw short (λ e. cc)
  | inl long ↦
      let low : 8 ≤ length bytes = ground (arith, long) in
      rw (long, le→leb 2 (length bytes) (omega arith), le→leb 4 (length bytes) (omega arith))
        (elim (Bool-cases (from_be (take 1 (drop 1 bytes)) == 1)) [
          | inl v4_family ↦ rw v4_family (λ e. cc)
          | inr other ↦ rw other (λ e. cc)
        ])
]

-- An attribute gives an address, an error, or an offset past its header.
abbrev Advances : ℕ → Outcome NatError (ℕ ⊎ SocketAddr) → Type 0
Advances offset (ok (inl next)) = offset ≤ next
Advances offset (ok (inr addr)) = Unit {0}
Advances offset (err e) = Unit {0}
Advances offset panic = ⊥

Advances-value :
    (offset : ℕ) (o : Outcome NatError SocketAddr)
    → Safe o
    → Advances offset (o >>= λ addr. ok (inr addr))
Advances-value offset (ok addr) s = tt
Advances-value offset (err e) s = tt
Advances-value offset panic s = absurd (s refl)

attribute_value-Advances :
    (attr_type attr_len offset : ℕ) (bytes : List ℕ)
    → offset + attr_len ≤ length bytes
    → Advances offset (attribute_value attr_type attr_len offset bytes)
unfolding attribute_value
attribute_value-Advances attr_type attr_len offset bytes fits =
    let value = take (offset + attr_len - offset) (drop offset bytes) in
    elim (Bool-cases (attr_type == attr_xor_mapped_address)) [
      | inl xor ↦
          rw (xor, le→leb (offset + attr_len) (length bytes) fits)
            (Advances-value offset (parse_xor_mapped_address value)
              (parse_xor_mapped_address-Safe value))
      | inr not_xor ↦ elim (Bool-cases (attr_type == attr_mapped_address)) [
        | inl plain ↦
            rw (not_xor, plain, le→leb (offset + attr_len) (length bytes) fits)
              (Advances-value offset (parse_mapped_address value) (parse_mapped_address-Safe value))
        | inr unknown ↦ rw (not_xor, unknown) (omega arith)
      ]
    ]

attribute-Advances :
    (bytes : List ℕ) (offset end : ℕ)
    → offset + 4 ≤ end
    → end ≤ length bytes
    → Advances (offset + 4) (attribute bytes offset end)
unfolding attribute
attribute-Advances bytes offset end h k =
    let attr_type = from_be (take 2 (drop offset bytes)) in
    let attr_len = from_be (take 2 (drop (offset + 2) bytes)) in
    elim (Bool-cases (leb (offset + 4 + attr_len) end)) [
      | inr past ↦
          rw
            (
              le→leb (offset + 2) (length bytes) (omega arith),
              le→leb (offset + 2 + 2) (length bytes) (omega arith),
              past,
            )
            tt
      | inl within ↦
          let inside : offset + 4 + attr_len ≤ end = ground (arith, within) in
          rw
            (
              le→leb (offset + 2) (length bytes) (omega arith),
              le→leb (offset + 2 + 2) (length bytes) (omega arith),
              within,
            )
            (attribute_value-Advances attr_type attr_len (offset + 4) bytes (omega arith))
    ]

-- What the loop comes to, whatever an attribute gives.
go_on_ends :
    (offset : ℕ) (next : ℕ → Option (Outcome NatError SocketAddr))
    (o : Outcome NatError (ℕ ⊎ SocketAddr))
    → Advances offset o
    → ((n : ℕ) → offset ≤ n → (r : Outcome NatError SocketAddr) × (next n ≡ some r) × Safe r)
    → (r : Outcome NatError SocketAddr) × (go_on next o ≡ some r) × Safe r
unfolding go_on
go_on_ends offset next (ok (inl n)) h k = k n h
go_on_ends offset next (ok (inr addr)) h k = (ok addr, refl, λ e. cc)
go_on_ends offset next (err x) h k = (err x, refl, λ e. cc)
go_on_ends offset next panic h k = absurd h

-- With some fuel, and more than there are bytes from the offset to the end, the loop over the attributes comes to
-- a result, and not by a panic.
pub attributes_end :
    (fuel : ℕ) (bytes : List ℕ) (offset end : ℕ)
    → end ≤ length bytes
    → 0 < fuel
    → end < offset + fuel
    → (r : Outcome NatError SocketAddr) × (attributes fuel bytes offset end ≡ some r) × Safe r
unfolding attributes
attributes_end zero bytes offset end h pos k = absurd (omega arith)
attributes_end (suc fuel) bytes offset end h pos k = elim (Bool-cases (leb (offset + 4) end)) [
  | inl more ↦
      let room : offset + 4 ≤ end = ground (arith, more) in
      rw (attributes, more)
        (go_on_ends (offset + 4) (λ next. attributes fuel bytes next end)
          (attribute bytes offset end) (attribute-Advances bytes offset end room h)
          (λ n past. attributes_end fuel bytes n end h (omega arith) (omega arith)))
  | inr done ↦ (err stun_failed, rw (attributes, done) refl, λ e. cc)
]

-- What is checked before the attributes are read.
abbrev pub Answers : List ℕ → List ℕ → Type 0
Answers bytes txn_id =
    (20 ≤ length bytes)
    × (from_be (take 2 bytes) ≡ binding_response)
    × (from_be (take 4 (drop 4 bytes)) ≡ magic_cookie)
    × (take 12 (drop 8 bytes) ≡ txn_id)
    × (20 + from_be (take 2 (drop 2 bytes)) ≤ length bytes)

parse-cases :
    (bytes txn_id : List ℕ)
    → (parse_binding_response bytes txn_id ≡ err stun_failed)
      ⊎ (Answers bytes txn_id
          × (parse_binding_response bytes txn_id
              ≡ looped (attributes (length bytes) bytes 20 (20 + from_be (take 2 (drop 2 bytes))))))
unfolding parse_binding_response
parse-cases bytes txn_id = elim (Bool-cases (leb 20 (length bytes))) [
  | inr short ↦ inl (rw short refl)
  | inl long ↦
      let low : 20 ≤ length bytes = ground (arith, long) in
      let at2 = le→leb 2 (length bytes) (omega arith) in
      let at4 = le→leb 4 (length bytes) (omega arith) in
      let at8 = le→leb 8 (length bytes) (omega arith) in
      elim (Bool-cases (from_be (take 2 bytes) == binding_response)) [
        | inr other ↦ inl (rw (long, at2, other) refl)
        | inl response ↦ elim (Bool-cases (from_be (take 4 (drop 4 bytes)) == magic_cookie)) [
          | inr other ↦ inl (rw (long, at2, response, at8, other) refl)
          | inl cookie ↦ elim (Bool-cases (id_eq (take 12 (drop 8 bytes)) txn_id)) [
            | inr other ↦ inl (rw (long, at2, response, at8, cookie, other) refl)
            | inl same ↦
                let n = from_be (take 2 (drop 2 bytes)) in
                elim (Bool-cases (leb (20 + n) (length bytes))) [
                  | inr cut ↦ inl (rw (long, at2, response, at8, cookie, same, at4, cut) refl)
                  | inl whole ↦ inr (
                    (
                      low,
                      ==→eq _ _ response,
                      ==→eq _ _ cookie,
                      (id_eq_iff _ _).0 same,
                      ground (arith, whole),
                    ),
                    rw (long, at2, response, at8, cookie, same, at4, whole) refl,
                  )
                ]
          ]
        ]
      ]
]

-- No bytes make the parser of a response panic, and its fuel suffices for any bytes.
pub parse_binding_response-Safe :
    (bytes txn_id : List ℕ) → Safe (parse_binding_response bytes txn_id)
unfolding looped
parse_binding_response-Safe bytes txn_id = elim (parse-cases bytes txn_id) [
  | inl refused ↦ rw refused (λ e. cc)
  | inr (answers, loop) ↦
      let (r, e, safe) =
        attributes_end (length bytes) bytes 20 (20 + from_be (take 2 (drop 2 bytes))) answers.4
          (omega arith) (omega arith) in
      rw (loop, e) safe
]

-- A response that is accepted has at least a header, with the type of a binding response, the magic
-- cookie, the transaction id of the request, and a length that is in the packet.
parse_binding_response-Answers :
    (bytes txn_id : List ℕ) (addr : SocketAddr)
    → parse_binding_response bytes txn_id ≡ ok addr
    → Answers bytes txn_id
parse_binding_response-Answers bytes txn_id addr e = elim (parse-cases bytes txn_id) [
  | inl refused ↦ cc
  | inr (answers, loop) ↦ answers
]
