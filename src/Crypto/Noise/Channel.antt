-- ===== src/Crypto/Noise/Channel.antt =====
-- The handshake of crates/ceky-crypto/src/noise.rs and the sessions of session.rs that its keys open.
use ceky_p2p.Common.{ℕ, ◌^◌, ◌≤◌, ◌<◌, ◌≡◌, refl, arith, List, [], map, length, All}
use ceky_p2p.Common.Outcome.{Outcome, ok, ◌>>=◌}
use ceky_p2p.Crypto.Suite.{Suite}
use ceky_p2p.Crypto.Identity.{Identity, generate}
use ceky_p2p.Crypto.Replay.{new}
use ceky_p2p.Crypto.Replay.Refines.{new-Stands}
use ceky_p2p.Crypto.Session.{CryptoError, SecureSession, SessionKeys, from_keys}
use ceky_p2p.Crypto.Session.Receiving.{channel, channel-lossless, from_keys_accepted}
use ceky_p2p.Crypto.Noise.Agree.{handshake, handshake-agrees}

module _ (suite : Suite) where
  open suite use {aead, key_accepted, short_sealed}

  -- A handshake, and then a session from the keys on each side.
  pub connect :
      Identity
      → Identity
      → List ℕ
      → List ℕ
      → Outcome CryptoError (SecureSession aead × SecureSession aead)
  connect a b ephemeral_a ephemeral_b = do
    keys ← handshake suite a b ephemeral_a ephemeral_b
    session_a ← from_keys aead keys.0
    session_b ← from_keys aead keys.1
    ok (session_a, session_b)

  abbrev opened : aead.Cipher → aead.Cipher → SessionKeys → SecureSession aead
  opened c d keys = record {
    send_cipher = c;
    recv_cipher = d;
    send_nonce = 0;
    recv_nonce_max = 0;
    replay_window = new;
    remote_static = keys.remote_static;
  }

  -- Two identities connect, whatever the ephemeral secrets, and then up to 2 ^ 48 short messages in
  -- either direction arrive in order and unchanged.
  pub connect-lossless :
      (sa xa sb xb ephemeral_a ephemeral_b : List ℕ) (there back : List (List ℕ × List ℕ))
      → length there ≤ 2 ^ 48
      → length back ≤ 2 ^ 48
      → All (λ m. length m.0 < 2 ^ 36) there
      → All (λ m. length m.0 < 2 ^ 36) back
      → (session_a : SecureSession aead) × (session_b : SecureSession aead) × (connect
            (generate suite sa xa)
            (generate suite sb xb)
            ephemeral_a
            ephemeral_b
          ≡ ok (session_a, session_b))
        × (channel aead session_a session_b there ≡ map (λ m. ok m.0) there)
        × (channel aead session_b session_a back ≡ map (λ m. ok m.0) back)
  unfolding connect
  connect-lossless sa xa sb xb ea eb there back few few' short short' =
      let (ka, kb, e, out, back', ra, rb, ls, lr) = handshake-agrees suite sa xa sb xb ea eb in
      let (c, ec) = key_accepted ka.send_key ls in
      let (d, ed) = key_accepted ka.recv_key lr in
      let alice : SecureSession aead = opened c d ka in
      let bob : SecureSession aead = opened d c kb in
      let open_a : from_keys aead ka ≡ ok alice = from_keys_accepted aead ka c d ec ed in
      let open_b : from_keys aead kb ≡ ok bob =
        from_keys_accepted aead kb d c (rw (← back') ed) (rw (← out) ec) in
      (
        alice,
        bob,
        rw (e, open_a, open_b) refl,
        channel-lossless aead (2 ^ 36) short_sealed alice bob [] there refl new-Stands tt
            (omega arith) short,
        channel-lossless aead (2 ^ 36) short_sealed bob alice [] back refl new-Stands tt
            (omega arith) short',
      )
