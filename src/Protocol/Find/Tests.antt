-- ===== src/Protocol/Find/Tests.antt =====
-- The messages of crates/ceky-protocol/src/dht.rs at concrete inputs.
use ceky_p2p.Common.{◌≡◌, refl, arith, [], ◌∷◌, replicate, take}
use ceky_p2p.Common.Bytes.{from_be}
use ceky_p2p.Common.Outcome.{ok, err, get_be}
use ceky_p2p.Protocol.Find.{
  invalid_address_family, v4, v6, read_socket_addr, FindNode, encode_find, decode_find,
  FindNodeResp, encode_found, decode_found,
}
use ceky_p2p.Protocol.Find.RoundTrip.{decode_find-encode_find, decode_found-encode_found}

abbrev request : FindNode
request = record { target = replicate 32 7 }

decode_find-encode_find_example : decode_find (encode_find request) ≡ ok request
decode_find-encode_find_example = decode_find-encode_find request refl

abbrev found : FindNodeResp
found = record {
  peers =
      (replicate 32 1, v4 (127 ∷ 0 ∷ 0 ∷ 1 ∷ []) 9000)
      ∷ (replicate 32 2, v6 (replicate 16 0) 9001)
      ∷ [];
}

decode_found-encode_found_example :
    decode_found (encode_found found) ≡ ok (record { peers = take 255 found.peers })
decode_found-encode_found_example =
    decode_found-encode_found found ((refl, (refl, omega arith)), ((refl, (refl, omega arith)), tt))

family-unknown : read_socket_addr (5 ∷ []) ≡ err (invalid_address_family 5)
unfolding read_socket_addr get_be from_be
family-unknown = refl
