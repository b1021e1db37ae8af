-- ===== src/Crypto/Identity/Tests.antt =====
-- An identity of crates/ceky-crypto/src/identity.rs with concrete secrets.
use ceky_p2p.Common.{◌≡◌, refl, replicate, length}
use ceky_p2p.Common.Outcome.{ok, err}
use ceky_p2p.Crypto.Transparent.{open_suite}
use ceky_p2p.Crypto.Session.{serialization}
use ceky_p2p.Crypto.Identity.{Identity, generate, verify_peer_binding, save_to_file, load_from_file}
use ceky_p2p.Crypto.Identity.Binding.{generate-IsKept}

abbrev node : Identity
node = generate open_suite (replicate 32 7) (replicate 32 9)

short_file : load_from_file open_suite (replicate 63 0) ≡ err serialization
unfolding load_from_file
short_file = refl

generate-IsKept_example :
    (verify_peer_binding open_suite node.ed25519_public_key node.x25519_public_key
        node.x25519_signature
      ≡ ok node.peer_id)
    × (length (save_to_file open_suite node) ≡ 64)
    × (load_from_file open_suite (save_to_file open_suite node) ≡ ok node)
generate-IsKept_example = generate-IsKept open_suite (replicate 32 7) (replicate 32 9) refl refl
