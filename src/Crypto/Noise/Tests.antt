-- ===== src/Crypto/Noise/Tests.antt =====
-- Handshakes of crates/ceky-crypto/src/noise.rs over primitives that hide nothing.
use ceky_p2p.Common.{ℕ, ◌≡◌, refl, arith, false, List, [], ◌∷◌, map, replicate, length}
use ceky_p2p.Common.Outcome.{ok, err, panic}
use ceky_p2p.Crypto.Transparent.{open_suite, seal, padded, transparent}
use ceky_p2p.Crypto.Identity.{Identity, generate}
use ceky_p2p.Crypto.Session.{invalid_handshake_state, handshake_failed, SessionKeys, SecureSession}
use ceky_p2p.Crypto.Session.Receiving.{channel}
use ceky_p2p.Crypto.Noise.{
  NoiseHandshake, resp_sent_msg2, new_initiator, new_responder, encrypt_with_ad, create_message1,
  process_message1_create_message2, process_message2_create_message3, process_message3,
  into_session_keys, is_complete,
}
use ceky_p2p.Crypto.Noise.Messages.{key}
use ceky_p2p.Crypto.Noise.Agree.{handshake, handshake-agrees}
use ceky_p2p.Crypto.Noise.Refused.{Moves, WrongLength, calls-Moves}
use ceky_p2p.Crypto.Noise.Impostor.{process_message3_unproved, process_message3_crashed}
use ceky_p2p.Crypto.Noise.Channel.{connect, connect-lossless}

abbrev alice : Identity
alice = generate open_suite (replicate 32 1) (replicate 32 2)

abbrev bob : Identity
bob = generate open_suite (replicate 32 3) (replicate 32 4)

-- A responder that has sent message 2.
abbrev waiting : NoiseHandshake
waiting = record {
  identity = bob;
  is_initiator = false;
  h = replicate 32 5;
  ck = replicate 32 6;
  state = resp_sent_msg2 (replicate 32 7) (replicate 32 8);
}

wrong_message1 :
    (process_message1_create_message2 open_suite
      (replicate 32 5)
      (replicate 31 0xff)
      (new_responder open_suite bob)).1
    ≡ err handshake_failed
unfolding process_message1_create_message2 new_responder
wrong_message1 = refl

early_message2 :
    (process_message2_create_message3 open_suite [] (new_initiator open_suite alice)).1
    ≡ err invalid_handshake_state
unfolding process_message2_create_message3 new_initiator
early_message2 = refl

not_complete : is_complete (new_initiator open_suite alice) ≡ false
unfolding is_complete new_initiator
not_complete = refl

handshake-agrees_example :
    (keys_a : SessionKeys) × (keys_b : SessionKeys) × (handshake open_suite alice bob
        (replicate 32 5)
        (replicate 32 6)
      ≡ ok (keys_a, keys_b))
    × (keys_a.send_key ≡ keys_b.recv_key)
    × (keys_a.recv_key ≡ keys_b.send_key)
    × (keys_a.remote_static ≡ padded (replicate 32 4))
    × (keys_b.remote_static ≡ padded (replicate 32 2))
    × (length keys_a.send_key ≡ 32)
    × (length keys_a.recv_key ≡ 32)
handshake-agrees_example =
    handshake-agrees open_suite (replicate 32 1) (replicate 32 2) (replicate 32 3) (replicate 32 4)
      (replicate 32 5) (replicate 32 6)

message1_is_ephemeral :
    let (a1, msg1) = create_message1 open_suite (replicate 32 5) (new_initiator open_suite alice) in
    msg1 ≡ ok (replicate 32 5)
unfolding create_message1 new_initiator
message1_is_ephemeral = refl

calls-Moves_example :
    Moves ⊥ waiting (create_message1 open_suite (replicate 32 9) waiting)
    × Moves ⊥ waiting
        (process_message1_create_message2 open_suite (replicate 32 9) (seal (1 ∷ [])) waiting)
    × Moves ⊥ waiting (process_message2_create_message3 open_suite (seal (1 ∷ [])) waiting)
    × Moves
        (WrongLength open_suite waiting (seal (1 ∷ [])))
        waiting
        (process_message3 open_suite (seal (1 ∷ [])) waiting)
calls-Moves_example = calls-Moves open_suite (replicate 32 9) (seal (1 ∷ [])) waiting

process_message3_crashed_example :
    (msg3 : List ℕ) × (encrypt_with_ad open_suite
        (key open_suite waiting.ck [])
        0
        waiting.h
        (1 ∷ [])
      ≡ ok msg3)
    × ((process_message3 open_suite msg3 waiting).1 ≡ panic)
process_message3_crashed_example =
    process_message3_crashed open_suite waiting (replicate 32 7) (replicate 32 8) (1 ∷ []) refl
      (omega arith) (omega arith)

process_message3_unproved_example :
    (msg3 : List ℕ) × (t : NoiseHandshake) × (keys : SessionKeys) × (encrypt_with_ad open_suite
        (key open_suite waiting.ck [])
        0
        waiting.h
        (padded (9 ∷ []))
      ≡ ok msg3)
    × (process_message3 open_suite msg3 waiting ≡ (t, ok tt))
    × (into_session_keys t ≡ ok keys)
    × (keys.remote_static ≡ padded (9 ∷ []))
process_message3_unproved_example =
    process_message3_unproved open_suite waiting (replicate 32 7) (replicate 32 8) (padded (9 ∷ []))
      refl refl

abbrev messages : List (List ℕ × List ℕ)
messages = (1 ∷ 2 ∷ [], []) ∷ (3 ∷ [], 9 ∷ []) ∷ []

connect-lossless_example :
    (session_a : SecureSession transparent) × (session_b : SecureSession transparent) × (connect
        open_suite alice bob
        (replicate 32 5)
        (replicate 32 6)
      ≡ ok (session_a, session_b))
    × (channel transparent session_a session_b messages ≡ map (λ m. ok m.0) messages)
    × (channel transparent session_b session_a messages ≡ map (λ m. ok m.0) messages)
connect-lossless_example =
    connect-lossless open_suite (replicate 32 1) (replicate 32 2) (replicate 32 3) (replicate 32 4)
      (replicate 32 5) (replicate 32 6) messages messages (omega arith) (omega arith) (omega arith)
      (omega arith)
