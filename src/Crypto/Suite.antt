-- ===== src/Crypto/Suite.antt =====
-- The primitives of third-party crates that crates/ceky-crypto calls: SHA-256 (sha2), X25519
-- (x25519-dalek), Ed25519 (ed25519-dalek) and ChaCha20-Poly1305 (chacha20poly1305), with the
-- documented facts that the code relies on. Keys, hashes and signatures are byte strings.
use ceky_p2p.Common.{ℕ, ◌+◌, ◌^◌, ◌<◌, ◌≡◌, Bool, true, some, List, length}
use ceky_p2p.Crypto.Aead.{Aead}

pub record Suite : Type 1 where
  pub aead : Aead
  pub sha256 : List ℕ → List ℕ
  -- `X25519PublicKey::from(&secret)` and `secret.diffie_hellman(&public)`
  pub x25519_public : List ℕ → List ℕ
  pub diffie_hellman : List ℕ → List ℕ → List ℕ
  -- `SigningKey::verifying_key`, `SigningKey::sign`, and `VerifyingKey::verify` of a message and
  -- its signature
  pub verifying_key : List ℕ → List ℕ
  pub sign : List ℕ → List ℕ → List ℕ
  pub verify : List ℕ → List ℕ → List ℕ → Bool
  pub length-sha256 : (m : List ℕ) → length (sha256 m) ≡ 32
  pub length-x25519_public : (s : List ℕ) → length (x25519_public s) ≡ 32
  pub diffie_hellman_comm :
      (s t : List ℕ) → diffie_hellman s (x25519_public t) ≡ diffie_hellman t (x25519_public s)
  pub verify-sign : (k m : List ℕ) → verify (verifying_key k) m (sign k m) ≡ true
  -- The cipher takes a key of 32 bytes, seals what is short, and adds a tag of 16 bytes.
  pub key_accepted :
      (key : List ℕ) → length key ≡ 32 → (c : aead.Cipher) × (aead.new_from_slice key ≡ some c)
  pub short_sealed :
      (c : aead.Cipher) (nonce ad plaintext : List ℕ)
      → length plaintext < 2 ^ 36
      → (ciphertext : List ℕ) × (aead.encrypt c nonce ad plaintext ≡ some ciphertext)
  pub length-encrypt :
      (c : aead.Cipher) (nonce ad plaintext ciphertext : List ℕ)
      → aead.encrypt c nonce ad plaintext ≡ some ciphertext
      → length ciphertext ≡ length plaintext + 16
  pub length-decrypt :
      (c : aead.Cipher) (nonce ad ciphertext plaintext : List ℕ)
      → aead.decrypt c nonce ad ciphertext ≡ some plaintext
      → length ciphertext ≡ length plaintext + 16
