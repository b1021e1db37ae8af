-- ===== src/Crypto/Noise/Keys.antt =====
-- The keys and the ciphers of crates/ceky-crypto/src/noise.rs: lengths, and what is sealed is opened.
use ceky_p2p.Common.{ℕ, ◌+◌, ◌^◌, ◌<◌, ◌≡◌, refl, List, Option-cases, inl, inr, length}
use ceky_p2p.Common.Outcome.{ok}
use ceky_p2p.Crypto.Suite.{Suite}
use ceky_p2p.Crypto.Session.{build_nonce}
use ceky_p2p.Crypto.Noise.{hmac_sha256, hkdf, encrypt_with_ad, decrypt_with_ad}

module _ (suite : Suite) where
  open suite use {aead, length-sha256, key_accepted, short_sealed, length-encrypt, length-decrypt}

  length-hmac_sha256 : (key m : List ℕ) → length (hmac_sha256 suite key m) ≡ 32
  unfolding hmac_sha256
  length-hmac_sha256 key m = length-sha256 _

  pub length-hkdf :
      (ck input : List ℕ)
      → (length (hkdf suite ck input).0 ≡ 32) × (length (hkdf suite ck input).1 ≡ 32)
  unfolding hkdf
  length-hkdf ck input = (length-hmac_sha256 _ _, length-hmac_sha256 _ _)

  pub sealed :
      (key ad plaintext : List ℕ)
      → length key ≡ 32
      → length plaintext < 2 ^ 36
      → (ciphertext : List ℕ) × (encrypt_with_ad suite key 0 ad plaintext ≡ ok ciphertext)
        × (decrypt_with_ad suite key 0 ad ciphertext ≡ ok plaintext)
        × (length ciphertext ≡ length plaintext + 16)
  unfolding encrypt_with_ad decrypt_with_ad
  sealed key ad plaintext long short =
      let (c, accepted) = key_accepted key long in
      let (ciphertext, e) = short_sealed c (build_nonce 0) ad plaintext short in
      (
        ciphertext,
        rw (encrypt_with_ad, accepted, e) refl,
        rw
            (
              decrypt_with_ad,
              accepted,
              aead.decrypt-encrypt c (build_nonce 0) ad plaintext ciphertext e,
            )
            refl,
        length-encrypt c (build_nonce 0) ad plaintext ciphertext e,
      )

  -- What is opened has lost a tag of 16 bytes.
  pub length-decrypt_with_ad :
      (key : List ℕ) (n : ℕ) (ad ciphertext plaintext : List ℕ)
      → decrypt_with_ad suite key n ad ciphertext ≡ ok plaintext
      → length ciphertext ≡ length plaintext + 16
  unfolding decrypt_with_ad
  length-decrypt_with_ad key n ad ciphertext plaintext e =
      elim (Option-cases (aead.new_from_slice key)) [
        | inl bad ↦ cc (bad)
        | inr (c, good) ↦ elim (Option-cases (aead.decrypt c (build_nonce n) ad ciphertext)) [
          | inl bad ↦ cc (good, bad)
          | inr (p, opened) ↦
              length-decrypt c (build_nonce n) ad ciphertext plaintext (cc (good, opened))
        ]
      ]
