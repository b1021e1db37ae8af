-- ===== src/Nat/Stun/Tests.antt =====
-- Requests and responses of crates/ceky-nat/src/stun.rs, and crates/ceky-nat/src/detection.rs on them.
use ceky_p2p.Common.{
  ℕ, ◌+◌, ◌≡◌, ◌<◌, ◌^◌, refl, arith, false, List, [], ◌∷◌, ◌++◌, length, replicate, take,
}
use ceky_p2p.Common.Bytes.{be_bytes, le_bytes, from_be}
use ceky_p2p.Crypto.PeerId.{id_eq}
use ceky_p2p.Common.Outcome.{ok, err}
use ceky_p2p.Common.Reader.{Safe}
use ceky_p2p.Protocol.Find.{v4}
use ceky_p2p.Nat.Relay.{no_stun_servers}
use ceky_p2p.Nat.Stun.{
  attr_mapped_address, attr_xor_mapped_address, generate_transaction_id, build_binding_request,
  parse_binding_response, discover,
}
use ceky_p2p.Nat.Stun.Ends.{parse_binding_response-Safe}
use ceky_p2p.Nat.Stun.Mapped.{attribute_bytes, response_bytes, all_bytes}
use ceky_p2p.Nat.Stun.Shown.{mapped_value, xor_mapped_value, parse_binding_response-mapped}
use ceky_p2p.Nat.Detection.{same_ip}

abbrev id : List ℕ
id = replicate 12 0xAA

abbrev address : List ℕ
address = 93 ∷ 184 ∷ 216 ∷ 34 ∷ []

-- SOFTWARE, an attribute of 5 bytes with 3 of padding.
abbrev software : List (ℕ × List ℕ)
software = (0x8022, 1 ∷ 2 ∷ 3 ∷ 4 ∷ 5 ∷ []) ∷ []

request_bytes :
    build_binding_request (replicate 12 7)
    ≡ 0 ∷ 1 ∷ 0 ∷ 0 ∷ 0x21 ∷ 0x12 ∷ 0xA4 ∷ 0x42 ∷ replicate 12 7
unfolding build_binding_request be_bytes
request_bytes = refl

clock_bytes : take 2 (generate_transaction_id 0x0102) ≡ 2 ∷ 1 ∷ []
unfolding generate_transaction_id le_bytes
clock_bytes = refl

no_servers :
    discover (λ server. ok (record { mapped_addr = server; server_addr = server })) []
    ≡ err no_stun_servers
unfolding discover
no_servers = refl

software_room : length (all_bytes software) + 0 + 12 < 2 ^ 16
unfolding be_bytes
software_room = omega arith

parse_binding_response-mapped_example :
    (parse_binding_response
        (response_bytes id (
          all_bytes software
          ++ (attribute_bytes attr_xor_mapped_address (xor_mapped_value address 12345) ++ [])))
        id
      ≡ ok (v4 address 12345))
    × (parse_binding_response
          (response_bytes id (
            all_bytes software
            ++ (attribute_bytes attr_mapped_address (mapped_value address 12345) ++ [])))
          id
        ≡ ok (v4 address 12345))
parse_binding_response-mapped_example =
    parse_binding_response-mapped id software 93 184 216 34 12345 [] refl
      ((omega arith, omega arith, omega arith, omega arith), tt) (omega arith) (omega arith)
      software_room

abbrev response : List ℕ
response = response_bytes id (attribute_bytes attr_mapped_address (mapped_value address 12345))

answered : parse_binding_response response id ≡ ok (v4 address 12345)
unfolding parse_binding_response be_bytes from_be id_eq
answered = refl

parse_binding_response-Safe_example : Safe (parse_binding_response (replicate 30 0xFF) id)
parse_binding_response-Safe_example = parse_binding_response-Safe (replicate 30 0xFF) id

hosts_differ : same_ip (v4 (1 ∷ 1 ∷ 1 ∷ 1 ∷ []) 1000) (v4 (192 ∷ 168 ∷ 1 ∷ 9 ∷ []) 9000) ≡ false
unfolding id_eq
hosts_differ = refl

moved : same_ip (v4 (1 ∷ 1 ∷ 1 ∷ 1 ∷ []) 1000) (v4 (2 ∷ 2 ∷ 2 ∷ 2 ∷ []) 1000) ≡ false
unfolding id_eq
moved = refl
