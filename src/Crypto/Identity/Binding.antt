-- ===== src/Crypto/Identity/Binding.antt =====
-- The signature and the key file of crates/ceky-crypto/src/identity.rs.
use ceky_p2p.Common.{
  ℕ, ◌≡◌, refl, subst, arith, List, ◌++◌, length, take, drop, length-append, take-append_of,
  drop-append_of, take_all,
}
use ceky_p2p.Common.Outcome.{ok}
use ceky_p2p.Crypto.Suite.{Suite}
use ceky_p2p.Crypto.Identity.{generate, verify_peer_binding, save_to_file, load_from_file}

module _ (suite : Suite) where
  -- An identity from two secrets of 32 bytes is bound: its signature verifies and gives its peer id.
  -- The file it is saved to has 64 bytes and loads the same identity.
  pub generate-IsKept :
      (ed25519 x25519 : List ℕ)
      → length ed25519 ≡ 32
      → length x25519 ≡ 32
      → let id = generate suite ed25519 x25519 in
        (verify_peer_binding suite id.ed25519_public_key id.x25519_public_key id.x25519_signature
          ≡ ok id.peer_id)
        × (length (save_to_file suite id) ≡ 64)
        × (load_from_file suite (save_to_file suite id) ≡ ok id)
  unfolding verify_peer_binding save_to_file load_from_file generate
  generate-IsKept ed25519 x25519 long long' =
      let size : length (ed25519 ++ x25519) ≡ 64 = omega (arith, length-append ed25519 x25519) in
      let front : take 32 (ed25519 ++ x25519) ≡ ed25519 = take-append_of 32 ed25519 x25519 long in
      let rest : drop 32 (ed25519 ++ x25519) ≡ x25519 = drop-append_of 32 ed25519 x25519 long in
      let back : take 32 x25519 ≡ x25519 =
        subst (λ n. take n x25519 ≡ x25519) long' (take_all x25519) in
      (
        rw (suite.verify-sign ed25519 (suite.x25519_public x25519)) refl,
        size,
        rw (size, front, rest, back) refl,
      )
