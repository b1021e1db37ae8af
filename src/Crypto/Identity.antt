-- ===== src/Crypto/Identity.antt =====
-- `Identity` of crates/ceky-crypto/src/identity.rs: the keys of a node, the signature that binds them,
-- and the key file. What the random generator gives is an argument.
mod Binding
mod Tests
use ceky_p2p.Common.{ℕ, Bool, true, false, List, [], ◌++◌, ◌==◌, if◌then◌else◌, length, take, drop}
use ceky_p2p.Common.Outcome.{Outcome, ok, err}
use ceky_p2p.Crypto.Suite.{Suite}
use ceky_p2p.Crypto.PeerId.{PeerId}
use ceky_p2p.Crypto.Session.{CryptoError, invalid_signature, serialization}

pub record Identity : Type 0 where
  pub ed25519_signing_key : List ℕ
  pub ed25519_public_key : List ℕ
  pub x25519_static_secret : List ℕ
  pub x25519_public_key : List ℕ
  pub x25519_signature : List ℕ
  pub peer_id : PeerId

module _ (suite : Suite) where
  open suite use {sha256, x25519_public, verifying_key, sign, verify}

  -- `PeerId::from_public_key`
  unfoldable pub from_public_key : List ℕ → PeerId
  from_public_key public_key = sha256 public_key

  unfoldable pub generate : List ℕ → List ℕ → Identity
  unfolding from_public_key
  generate ed25519_signing_key x25519_static_secret =
      let ed25519_public_key = verifying_key ed25519_signing_key in
      let x25519_public_key = x25519_public x25519_static_secret in
      record {
        ed25519_signing_key = ed25519_signing_key;
        ed25519_public_key = ed25519_public_key;
        x25519_static_secret = x25519_static_secret;
        x25519_public_key = x25519_public_key;
        x25519_signature = sign ed25519_signing_key x25519_public_key;
        peer_id = from_public_key ed25519_public_key;
      }

  pub verify_peer_binding : List ℕ → List ℕ → List ℕ → Outcome CryptoError PeerId
  unfolding from_public_key
  verify_peer_binding ed25519_pk x25519_pk signature =
      if verify ed25519_pk x25519_pk signature
      then ok (from_public_key ed25519_pk)
      else err invalid_signature

  -- The bytes of `save_to_file`, and what `load_from_file` makes of the bytes it reads.
  pub save_to_file : Identity → List ℕ
  save_to_file id = id.ed25519_signing_key ++ id.x25519_static_secret

  pub load_from_file : List ℕ → Outcome CryptoError Identity
  unfolding from_public_key
  load_from_file bytes =
      if length bytes == 64
      then (let ed25519_signing_key = take 32 bytes in
          let x25519_static_secret = take 32 (drop 32 bytes) in
          let ed25519_public_key = verifying_key ed25519_signing_key in
          let x25519_public_key = x25519_public x25519_static_secret in
          ok (record {
            ed25519_signing_key = ed25519_signing_key;
            ed25519_public_key = ed25519_public_key;
            x25519_static_secret = x25519_static_secret;
            x25519_public_key = x25519_public_key;
            x25519_signature = sign ed25519_signing_key x25519_public_key;
            peer_id = from_public_key ed25519_public_key;
          }))
      else err serialization
