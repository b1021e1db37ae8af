-- ===== src/Crypto/Aead.antt =====
-- The ChaCha20-Poly1305 cipher of the crate chacha20poly1305, which crates/ceky-crypto calls: its
-- operations, and that what a cipher seals it opens again.
use ceky_p2p.Common.{ℕ, ◌≡◌, List, Option, some}

pub record Aead : Type 1 where
  pub Cipher : Type 0
  pub new_from_slice : List ℕ → Option Cipher
  -- The cipher, the 12 bytes of the nonce, the associated data and the message.
  pub encrypt : Cipher → List ℕ → List ℕ → List ℕ → Option (List ℕ)
  pub decrypt : Cipher → List ℕ → List ℕ → List ℕ → Option (List ℕ)
  pub decrypt-encrypt :
      (c : Cipher) (nonce ad plaintext ciphertext : List ℕ)
      → encrypt c nonce ad plaintext ≡ some ciphertext
      → decrypt c nonce ad ciphertext ≡ some plaintext
