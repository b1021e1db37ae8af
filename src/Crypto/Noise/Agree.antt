-- ===== src/Crypto/Noise/Agree.antt =====
-- A whole handshake of crates/ceky-crypto/src/noise.rs: the three messages, and the keys they give.
use ceky_p2p.Common.{ℕ, ◌^◌, ◌<◌, ◌≡◌, refl, arith, List, [], ◌++◌, length}
use ceky_p2p.Common.Outcome.{Outcome, ok, ◌>>=◌, ◌>>◌}
use ceky_p2p.Crypto.Suite.{Suite}
use ceky_p2p.Crypto.Identity.{Identity, generate}
use ceky_p2p.Crypto.Session.{CryptoError, SessionKeys}
use ceky_p2p.Crypto.Noise.{
  resp_sent_msg2, new_initiator, new_responder, create_message1, process_message1_create_message2,
  process_message2_create_message3, process_message3, into_session_keys, protocol_name,
}
use ceky_p2p.Crypto.Noise.Keys.{length-hkdf, sealed}
use ceky_p2p.Crypto.Noise.Messages.{
  ckey, key, message1_answered, message2_accepted, message3_accepted,
}

module _ (suite : Suite) where
  open suite use {sha256, x25519_public, diffie_hellman, length-x25519_public, diffie_hellman_comm}

  -- The calls of both sides, each message delivered as it was sent.
  pub handshake :
      Identity → Identity → List ℕ → List ℕ → Outcome CryptoError (SessionKeys × SessionKeys)
  handshake a b ephemeral_a ephemeral_b =
      let (a1, sent1) = create_message1 suite ephemeral_a (new_initiator suite a) in
      do
        msg1 ← sent1
        let (b2, sent2) =
            process_message1_create_message2 suite ephemeral_b msg1 (new_responder suite b)
        msg2 ← sent2
        let (a3, sent3) = process_message2_create_message3 suite msg2 a1
        msg3 ← sent3
        let (b4, done) = process_message3 suite msg3 b2
        done
        keys_a ← into_session_keys a3
        keys_b ← into_session_keys b4
        ok (keys_a, keys_b)

  -- A handshake between two identities ends, whatever the ephemeral secrets: what one side sends
  -- with the other receives with, the keys have 32 bytes, and each side has the other's static key.
  pub handshake-agrees :
      (sa xa sb xb ephemeral_a ephemeral_b : List ℕ)
      → let a = generate suite sa xa in
        let b = generate suite sb xb in
        (keys_a : SessionKeys) × (keys_b : SessionKeys) × (handshake a b ephemeral_a ephemeral_b
          ≡ ok (keys_a, keys_b))
        × (keys_a.send_key ≡ keys_b.recv_key)
        × (keys_a.recv_key ≡ keys_b.send_key)
        × (keys_a.remote_static ≡ x25519_public xb)
        × (keys_b.remote_static ≡ x25519_public xa)
        × (length keys_a.send_key ≡ 32)
        × (length keys_a.recv_key ≡ 32)
  unfolding handshake create_message1 generate new_initiator new_responder
      process_message2_create_message3 process_message3 into_session_keys
  handshake-agrees sa xa sb xb ea eb =
      let h0 = sha256 protocol_name in
      let h2 = sha256 (sha256 (h0 ++ x25519_public ea) ++ x25519_public eb) in
      let ee = diffie_hellman eb (x25519_public ea) in
      let es = diffie_hellman xb (x25519_public ea) in
      let ck2 = ckey suite (ckey suite h0 ee) es in
      let short : (s : List ℕ) → length (x25519_public s) < 2 ^ 36 =
        λ s. omega (arith, length-x25519_public s) in
      let (c1, e1, d1, l1) =
        sealed suite (key suite h0 ee) h2 (x25519_public xb) (length-hkdf suite h0 ee).1
          (short xb) in
      let h3 = sha256 (h2 ++ c1) in
      let (c2, e2, d2, l2) =
        sealed suite (key suite (ckey suite h0 ee) es) h3 []
          (length-hkdf suite (ckey suite h0 ee) es).1 (omega arith) in
      let (c3, e3, d3, l3) =
        sealed suite (key suite ck2 []) (sha256 (h3 ++ c2)) (x25519_public xa)
          (length-hkdf suite ck2 []).1 (short xa) in
      let m1 =
        message1_answered suite (new_responder suite (generate suite sb xb)) eb (x25519_public ea)
          c1 c2 (length-x25519_public ea) e1 e2 in
      let m2 =
        message2_accepted suite
          (create_message1 suite ea (new_initiator suite (generate suite sa xa))).0 ea
          (x25519_public eb) c1 c2 c3 (x25519_public xb) ee es (length-x25519_public eb)
          (omega (arith, l1, length-x25519_public xb)) (omega (arith, l2)) (length-x25519_public xb)
          (diffie_hellman_comm ea eb) (diffie_hellman_comm ea xb) d1 d2 e3 in
      let m3 =
        message3_accepted suite
          (record (new_responder suite (generate suite sb xb)) {
            h = sha256 (h3 ++ c2);
            ck = ck2;
            state = resp_sent_msg2 (x25519_public ea) eb;
          })
          eb c3 (x25519_public xa) (diffie_hellman xa (x25519_public eb)) (length-x25519_public xa)
          (diffie_hellman_comm eb xa) d3 in
      let ck4 = ckey suite (ckey suite ck2 []) (diffie_hellman xa (x25519_public eb)) in
      (
        record {
          send_key = ckey suite ck4 [];
          recv_key = key suite ck4 [];
          remote_static = x25519_public xb;
        },
        record {
          send_key = key suite ck4 [];
          recv_key = ckey suite ck4 [];
          remote_static = x25519_public xa;
        },
        rw (m1, m2, m3) refl,
        refl,
        refl,
        refl,
        refl,
        (length-hkdf suite ck4 []).0,
        (length-hkdf suite ck4 []).1,
      )
