-- ===== src/Crypto/Noise/Refused.antt =====
-- The state machine of crates/ceky-crypto/src/noise.rs: which calls move it, which are refused, and
-- which can panic.
use ceky_p2p.Common.{
  ℕ, ◌≡◌, ◌≢◌, ◌≤◌, refl, Bool, true, false, not, ◌||◌, inl, inr, Bool-cases, ◌⊎◌, Option-cases,
  eq→==, ◌==◌, ne→==, leb, arith, List, [], ◌++◌, length, take, drop, length-take, length-drop,
}
use ceky_p2p.Common.Outcome.{Outcome, ok, err, panic}
use ceky_p2p.Crypto.Suite.{Suite}
use ceky_p2p.Crypto.Session.{CryptoError, handshake_failed, decryption_failed, build_nonce}
use ceky_p2p.Crypto.Noise.{
  InternalState, new, init_sent_msg1, resp_sent_msg2, complete, is_new, NoiseHandshake,
  encrypt_with_ad, decrypt_with_ad, create_message1, process_message1_create_message2,
  message2_received, message2_in, message3_received, message3_in, process_message2_create_message3,
  process_message3,
}
use ceky_p2p.Crypto.Noise.Keys.{length-decrypt_with_ad}
use ceky_p2p.Crypto.Noise.Messages.{ckey, key}

-- The transitions of a handshake, by role. Only an initiator has to be new to send message 1, and
-- message 1 is answered in every state.
pub data Edge (is_initiator : Bool) : InternalState → InternalState → Type 0 where
  started :
      {u : InternalState} (secret public : List ℕ)
      → (not is_initiator || is_new u) ≡ true
      → Edge is_initiator u (init_sent_msg1 secret public)
  answered :
      {u : InternalState} (remote secret : List ℕ)
      → Edge is_initiator u (resp_sent_msg2 remote secret)
  accepted :
      (secret public send_key recv_key remote : List ℕ)
      → Edge is_initiator (init_sent_msg1 secret public) (complete send_key recv_key remote)
  finished :
      (remote secret send_key recv_key static : List ℕ)
      → Edge is_initiator (resp_sent_msg2 remote secret) (complete send_key recv_key static)

-- A call that succeeds follows an edge, one that fails leaves the state, and one panics only under
-- Crash; the role and the identity stay.
pub data Moves {A : Type 0} (Crash : Type 0) (s : NoiseHandshake)
    : NoiseHandshake × Outcome CryptoError A → Type 0 where
  moved :
      {t : NoiseHandshake} {a : A}
      → Edge s.is_initiator s.state t.state
      → t.is_initiator ≡ s.is_initiator
      → t.identity ≡ s.identity
      → Moves Crash s (t, ok a)
  failed : {t : NoiseHandshake} {e : CryptoError} → t.state ≡ s.state → Moves Crash s (t, err e)
  crashed : {t : NoiseHandshake} → Crash → Moves Crash s (t, panic)

module _ (suite : Suite) where
  open suite use {aead, sha256, x25519_public, diffie_hellman}

  -- The cipher gives a value or an error.
  encrypt-cases :
      (k ad p : List ℕ)
      → ((c : List ℕ) × (encrypt_with_ad suite k 0 ad p ≡ ok c))
        ⊎ ((e : CryptoError) × (encrypt_with_ad suite k 0 ad p ≡ err e))
  unfolding encrypt_with_ad
  encrypt-cases k ad p = elim (Option-cases (aead.new_from_slice k)) [
    | inl bad ↦ inr (handshake_failed, rw (encrypt_with_ad, bad) refl)
    | inr (c, good) ↦ elim (Option-cases (aead.encrypt c (build_nonce 0) ad p)) [
      | inl bad ↦ inr (handshake_failed, rw (encrypt_with_ad, good, bad) refl)
      | inr (ciphertext, sealed) ↦ inl (ciphertext, rw (encrypt_with_ad, good, sealed) refl)
    ]
  ]

  decrypt-cases :
      (k ad c : List ℕ)
      → ((p : List ℕ) × (decrypt_with_ad suite k 0 ad c ≡ ok p))
        ⊎ ((e : CryptoError) × (decrypt_with_ad suite k 0 ad c ≡ err e))
  unfolding decrypt_with_ad
  decrypt-cases k ad c = elim (Option-cases (aead.new_from_slice k)) [
    | inl bad ↦ inr (handshake_failed, rw (decrypt_with_ad, bad) refl)
    | inr (cipher, good) ↦ elim (Option-cases (aead.decrypt cipher (build_nonce 0) ad c)) [
      | inl bad ↦ inr (decryption_failed, rw (decrypt_with_ad, good, bad) refl)
      | inr (plaintext, opened) ↦ inl (plaintext, rw (decrypt_with_ad, good, opened) refl)
    ]
  ]

  create_message1-Moves :
      (secret : List ℕ) (s : NoiseHandshake) → Moves ⊥ s (create_message1 suite secret s)
  unfolding create_message1
  create_message1-Moves secret s = elim (Bool-cases (not s.is_initiator || is_new s.state)) [
    | inl fine ↦ rw fine (moved (started _ _ fine) refl refl)
    | inr bad ↦ rw bad (failed refl)
  ]

  message1-Moves :
      (secret msg1 : List ℕ) (s : NoiseHandshake)
      → Moves ⊥ s (process_message1_create_message2 suite secret msg1 s)
  unfolding process_message1_create_message2
  message1-Moves secret msg1 s =
      let h2 = sha256 (sha256 (s.h ++ msg1) ++ x25519_public secret) in
      let ee = diffie_hellman secret msg1 in
      let es = diffie_hellman s.identity.x25519_static_secret msg1 in
      elim (Bool-cases (length msg1 == 32)) [
        | inr bad ↦ rw bad (failed refl)
        | inl fits ↦ elim (encrypt-cases (key suite s.ck ee) h2 s.identity.x25519_public_key) [
          | inr (e, bad) ↦ rw (fits, bad) (failed refl)
          | inl (c1, e1) ↦
              elim (encrypt-cases (key suite (ckey suite s.ck ee) es) (sha256 (h2 ++ c1)) []) [
                | inr (e, bad) ↦ rw (fits, e1, bad) (failed refl)
                | inl (c2, e2) ↦ rw (fits, e1, e2) (moved (answered _ _) refl refl)
              ]
        ]
      ]

  message2-Moves :
      (secret public msg2 : List ℕ) (s : NoiseHandshake)
      → s.state ≡ init_sent_msg1 secret public
      → Moves ⊥ s (message2_received suite secret msg2 s)
  unfolding message2_received
  message2-Moves secret public msg2 s at =
      let xb = take 32 msg2 in
      let c1 = take 48 (drop 32 msg2) in
      let c2 = drop 80 msg2 in
      let h1 = sha256 (s.h ++ xb) in
      let h2 = sha256 (h1 ++ c1) in
      let ck1 = ckey suite s.ck (diffie_hellman secret xb) in
      elim (Bool-cases (leb 96 (length msg2))) [
        | inr bad ↦ rw bad (failed refl)
        | inl fits ↦ elim (decrypt-cases (key suite s.ck (diffie_hellman secret xb)) h1 c1) [
          | inr (e, bad) ↦ rw (fits, bad) (failed refl)
          | inl (rs, d1) ↦
              let low : 96 ≤ length msg2 = ground (arith, fits) in
              let long : (length rs == 32) ≡ true = eq→== _ 32 (
                omega (
                  arith,
                  low,
                  length-decrypt_with_ad suite _ 0 _ _ rs d1,
                  length-take 48 (drop 32 msg2),
                  length-drop 32 msg2,
                )) in
              let es = diffie_hellman secret rs in
              let ck2 = ckey suite ck1 es in
              elim (decrypt-cases (key suite ck1 es) h2 c2) [
                | inr (e, bad) ↦ rw (fits, d1, long, bad) (failed refl)
                | inl (p, d2) ↦
                    elim (encrypt-cases (key suite ck2 []) (sha256 (h2 ++ c2))
                      s.identity.x25519_public_key) [
                        | inr (e, bad) ↦ rw (fits, d1, long, d2, bad) (failed refl)
                        | inl (c3, e3) ↦
                            rw (fits, d1, long, d2, e3)
                              (moved (rw at (accepted _ _ _ _ _)) refl refl)
                      ]
              ]
        ]
      ]

  -- The bytes that open to something other than a key of 32 bytes.
  abbrev pub WrongLength : NoiseHandshake → List ℕ → Type 0
  WrongLength s msg3 =
      (p : List ℕ) × (decrypt_with_ad suite (key suite s.ck []) 0 s.h msg3 ≡ ok p) × (length p ≢ 32)

  message3-Moves :
      {Crash : Type 0} (remote secret msg3 : List ℕ) (s : NoiseHandshake)
      → s.state ≡ resp_sent_msg2 remote secret
      → (WrongLength s msg3 → Crash)
      → Moves Crash s (message3_received suite secret msg3 s)
  unfolding message3_received
  message3-Moves remote secret msg3 s at crash = elim (decrypt-cases (key suite s.ck []) s.h msg3) [
    | inr (e, bad) ↦ rw bad (failed refl)
    | inl (rs, d) ↦
        let wrong : length rs ≢ 32 → _ = λ short. crash (rs, d, short) in
        elim (Bool-cases (length rs == 32)) [
          | inl long ↦ rw (d, long) (moved (rw at (finished _ _ _ _ _)) refl refl)
          | inr bad ↦ rw (d, bad) (crashed (wrong (λ e. cc (bad, eq→== _ _ e))))
        ]
  ]

  -- Where the state is not the one that a message needs, nothing moves.
  message2_in-Moves :
      (u : InternalState) (msg2 : List ℕ) (s : NoiseHandshake)
      → s.state ≡ u
      → Moves ⊥ s (message2_in suite u msg2 s)
  unfolding message2_in
  message2_in-Moves new msg2 s at = failed refl
  message2_in-Moves (init_sent_msg1 secret public) msg2 s at =
      message2-Moves secret public msg2 s at
  message2_in-Moves (resp_sent_msg2 remote secret) msg2 s at = failed refl
  message2_in-Moves (complete send_key recv_key remote) msg2 s at = failed refl

  message3_in-Moves :
      (u : InternalState) (msg3 : List ℕ) (s : NoiseHandshake)
      → s.state ≡ u
      → Moves (WrongLength s msg3) s (message3_in suite u msg3 s)
  unfolding message3_in
  message3_in-Moves new msg3 s at = failed refl
  message3_in-Moves (init_sent_msg1 secret public) msg3 s at = failed refl
  message3_in-Moves (resp_sent_msg2 remote secret) msg3 s at =
      message3-Moves remote secret msg3 s at (λ w. w)
  message3_in-Moves (complete send_key recv_key remote) msg3 s at = failed refl

  -- Each call of a handshake, in any state and on any bytes: one that succeeds follows an edge, and one
  -- that fails leaves the state; only message 3 can panic, and only if it opens to something that has
  -- not 32 bytes.
  pub calls-Moves :
      (secret msg : List ℕ) (s : NoiseHandshake)
      → Moves ⊥ s (create_message1 suite secret s)
        × Moves ⊥ s (process_message1_create_message2 suite secret msg s)
        × Moves ⊥ s (process_message2_create_message3 suite msg s)
        × Moves (WrongLength s msg) s (process_message3 suite msg s)
  unfolding process_message2_create_message3 process_message3
  calls-Moves secret msg s = (
    create_message1-Moves secret s,
    message1-Moves secret msg s,
    message2_in-Moves s.state msg s refl,
    message3_in-Moves s.state msg s refl,
  )

  -- A message 3 that opens to something that has not 32 bytes makes the responder panic.
  pub process_message3_panics :
      (remote secret msg3 : List ℕ) (s : NoiseHandshake)
      → s.state ≡ resp_sent_msg2 remote secret
      → WrongLength s msg3
      → (process_message3 suite msg3 s).1 ≡ panic
  unfolding process_message3
  process_message3_panics remote secret msg3 s at (p, d, short) =
      let test : (length p == 32) ≡ false = ne→== _ _ short in
      rw (message3_in, at, message3_received, d, test) refl
