-- ===== src/Crypto/Noise/Impostor.antt =====
-- What message 3 of crates/ceky-crypto/src/noise.rs proves of its sender.
use ceky_p2p.Common.{ℕ, ◌≡◌, ◌≢◌, ◌<◌, ◌^◌, refl, ap, ◌∙◌, arith, List, [], ◌++◌, length}
use ceky_p2p.Common.Outcome.{ok, panic}
use ceky_p2p.Crypto.Suite.{Suite}
use ceky_p2p.Crypto.Session.{SessionKeys}
use ceky_p2p.Crypto.Noise.{
  InternalState, NoiseHandshake, resp_sent_msg2, complete, message3_in, encrypt_with_ad,
  process_message3, into_session_keys,
}
use ceky_p2p.Crypto.Noise.Keys.{length-hkdf, sealed}
use ceky_p2p.Crypto.Noise.Refused.{process_message3_panics}
use ceky_p2p.Crypto.Noise.Messages.{ckey, key, message3_accepted}

module _ (suite : Suite) where
  open suite use {sha256, diffie_hellman}

  -- For a responder that waits for message 3 and for any 32 bytes, their sealing under the key of
  -- the responder's chaining key is a message 3 that completes the handshake with those bytes as the
  -- remote static key. The secret of that static key is not used.
  pub process_message3_unproved :
      (s : NoiseHandshake) (remote secret static : List ℕ)
      → s.state ≡ resp_sent_msg2 remote secret
      → length static ≡ 32
      → (msg3 : List ℕ) × (t : NoiseHandshake) × (keys : SessionKeys) × (encrypt_with_ad suite
            (key suite s.ck [])
            0
            s.h
            static
          ≡ ok msg3)
        × (process_message3 suite msg3 s ≡ (t, ok tt))
        × (into_session_keys t ≡ ok keys)
        × (keys.remote_static ≡ static)
  unfolding process_message3 into_session_keys
  process_message3_unproved s remote secret static at long =
      let (msg3, e, d, _) =
        sealed suite (key suite s.ck []) s.h static (length-hkdf suite s.ck []).1
          (omega (arith, long)) in
      let accepted =
        message3_accepted suite s secret msg3 static (diffie_hellman secret static) long refl d in
      let ck4 = ckey suite (ckey suite s.ck []) (diffie_hellman secret static) in
      (
        msg3,
        record s {
          h = sha256 (s.h ++ msg3);
          ck = ck4;
          state = complete (key suite ck4 []) (ckey suite ck4 []) static;
        },
        record {
          send_key = key suite ck4 [];
          recv_key = ckey suite ck4 [];
          remote_static = static;
        },
        e,
        ap (λ (u : InternalState). message3_in suite u msg3 s) at ∙ accepted,
        refl,
        refl,
      )

  -- For a responder that waits for message 3 and any bytes that are not 32 and fewer than 2^36, their
  -- sealing under the key of the responder's chaining key exists, and is a message 3 that makes it panic.
  pub process_message3_crashed :
      (s : NoiseHandshake) (remote secret bytes : List ℕ)
      → s.state ≡ resp_sent_msg2 remote secret
      → length bytes ≢ 32
      → length bytes < 2 ^ 36
      → (msg3 : List ℕ) × (encrypt_with_ad suite (key suite s.ck []) 0 s.h bytes ≡ ok msg3)
        × ((process_message3 suite msg3 s).1 ≡ panic)
  process_message3_crashed s remote secret bytes at wrong short =
      let (msg3, e, d, _) =
        sealed suite (key suite s.ck []) s.h bytes (length-hkdf suite s.ck []).1 short in
      (msg3, e, process_message3_panics suite remote secret msg3 s at (bytes, d, wrong))
