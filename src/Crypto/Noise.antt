-- ===== src/Crypto/Noise.antt =====
-- `NoiseHandshake` of crates/ceky-crypto/src/noise.rs. A handshake is a record that each message
-- changes; an error leaves what was mixed in before it. What the random generator gives for an
-- ephemeral secret is an argument.
pub mod Keys
pub mod Messages
pub mod Agree
pub mod Refused
pub mod Impostor
pub mod Channel
mod Tests
use ceky_p2p.Common.{
  ℕ, ◌-◌, ◌≡◌, bit_xor, Bool, true, false, not, ◌||◌, none, some, List, [], ◌∷◌, ◌++◌, map, leb,
  ◌==◌, if◌then◌else◌, length, take, drop, replicate,
}
use ceky_p2p.Common.Outcome.{Outcome, ok, err, panic}
use ceky_p2p.Crypto.Suite.{Suite}
use ceky_p2p.Crypto.Identity.{Identity}
use ceky_p2p.Crypto.Session.{
  CryptoError, handshake_failed, invalid_handshake_state, decryption_failed, SessionKeys,
  build_nonce,
}

-- "Noise_XX_25519_ChaChaPoly_SHA256"
abbrev pub protocol_name : List ℕ
protocol_name =
    b'N' ∷ b'o' ∷ b'i' ∷ b's' ∷ b'e' ∷ b'_' ∷ b'X' ∷ b'X' ∷ b'_' ∷ b'2' ∷ b'5' ∷ b'5' ∷ b'1' ∷ b'9'
    ∷ b'_' ∷ b'C' ∷ b'h' ∷ b'a' ∷ b'C' ∷ b'h' ∷ b'a' ∷ b'P' ∷ b'o' ∷ b'l' ∷ b'y' ∷ b'_' ∷ b'S'
    ∷ b'H' ∷ b'A' ∷ b'2' ∷ b'5' ∷ b'6' ∷ []

pub data InternalState : Type 0 where
  new : InternalState
  -- ephemeral_secret_bytes and ephemeral_public
  init_sent_msg1 : List ℕ → List ℕ → InternalState
  -- remote_ephemeral and our_ephemeral_secret_bytes
  resp_sent_msg2 : List ℕ → List ℕ → InternalState
  -- send_key, recv_key and remote_static
  complete : List ℕ → List ℕ → List ℕ → InternalState

abbrev pub is_new : InternalState → Bool
is_new new = true
is_new (init_sent_msg1 secret public) = false
is_new (resp_sent_msg2 remote secret) = false
is_new (complete send_key recv_key remote) = false

pub record NoiseHandshake : Type 0 where
  pub identity : Identity
  pub is_initiator : Bool
  pub h : List ℕ
  pub ck : List ℕ
  pub state : InternalState

-- A method that changes the handshake and may fail.
abbrev pub Handshake : Type 0 → Type 0
Handshake A = NoiseHandshake → NoiseHandshake × Outcome CryptoError A

abbrev pub resume :
    {A B : Type 0}
    → NoiseHandshake × Outcome CryptoError A
    → (A → Handshake B)
    → NoiseHandshake × Outcome CryptoError B
resume (s, ok a) f = f a s
resume (s, err e) f = (s, err e)
resume (s, panic) f = (s, panic)

infixl 5 ◌>>=◌ ◌>>◌
abbrev pub ◌>>=◌ : {A B : Type 0} → Handshake A → (A → Handshake B) → Handshake B
◌>>=◌ m f s = resume (m s) f

abbrev pub ◌>>◌ : {B : Type 0} → Handshake (Unit {0}) → Handshake B → Handshake B
m >> k = m >>= λ _. k

abbrev lift : {A : Type 0} → Outcome CryptoError A → Handshake A
lift o s = (s, o)

abbrev get : Handshake NoiseHandshake
get s = (s, ok s)

abbrev pub ensure : Bool → CryptoError → Handshake (Unit {0})
ensure true e s = (s, ok tt)
ensure false e s = (s, err e)

abbrev enter : InternalState → Handshake (Unit {0})
enter state s = (record s { state = state }, ok tt)

-- `let mut a = [0u8; 32]; a.copy_from_slice(xs)`
abbrev pub copied : List ℕ → Handshake (List ℕ)
copied xs s = (s, (if length xs == 32 then ok xs else panic))

module _ (suite : Suite) where
  open suite use {aead, sha256, x25519_public, diffie_hellman}

  pub hmac_sha256 : List ℕ → List ℕ → List ℕ
  hmac_sha256 key message =
      let k_prime =
        (if leb (length key) 64
          then key ++ replicate (64 - length key) 0
          else sha256 key ++ replicate 32 0) in
      let inner_hash = sha256 (map (bit_xor 0x36) k_prime ++ message) in
      sha256 (map (bit_xor 0x5c) k_prime ++ inner_hash)

  pub hkdf : List ℕ → List ℕ → List ℕ × List ℕ
  hkdf chaining_key input_key_material =
      let prk = hmac_sha256 chaining_key input_key_material in
      let t1 = hmac_sha256 prk (1 ∷ []) in (t1, hmac_sha256 prk (t1 ++ 2 ∷ []))

  pub encrypt_with_ad : List ℕ → ℕ → List ℕ → List ℕ → Outcome CryptoError (List ℕ)
  encrypt_with_ad key nonce_counter ad plaintext = elim (aead.new_from_slice key) [
    | none ↦ err handshake_failed
    | some cipher ↦ elim (aead.encrypt cipher (build_nonce nonce_counter) ad plaintext) [
      | none ↦ err handshake_failed
      | some ciphertext ↦ ok ciphertext
    ]
  ]

  pub decrypt_with_ad : List ℕ → ℕ → List ℕ → List ℕ → Outcome CryptoError (List ℕ)
  decrypt_with_ad key nonce_counter ad ciphertext = elim (aead.new_from_slice key) [
    | none ↦ err handshake_failed
    | some cipher ↦ elim (aead.decrypt cipher (build_nonce nonce_counter) ad ciphertext) [
      | none ↦ err decryption_failed
      | some plaintext ↦ ok plaintext
    ]
  ]

  initial : Identity → Bool → NoiseHandshake
  initial identity is_initiator = record {
    identity = identity;
    is_initiator = is_initiator;
    h = sha256 protocol_name;
    ck = sha256 protocol_name;
    state = new;
  }

  pub new_initiator : Identity → NoiseHandshake
  unfolding initial
  new_initiator identity = initial identity true

  pub new_responder : Identity → NoiseHandshake
  unfolding initial
  new_responder identity = initial identity false

  mix_hash : List ℕ → Handshake (Unit {0})
  mix_hash bytes s = (record s { h = sha256 (s.h ++ bytes) }, ok tt)

  -- `let (new_ck, k) = Self::hkdf(&self.ck, input); self.ck = new_ck;`
  next_key : List ℕ → Handshake (List ℕ)
  next_key input s = let (new_ck, k) = hkdf s.ck input in (record s { ck = new_ck }, ok k)

  -- `let c = encrypt_with_ad(&k, 0, &self.h, p)?; self.mix_hash(&c);`
  encrypt_and_hash : List ℕ → List ℕ → Handshake (List ℕ)
  unfolding mix_hash
  encrypt_and_hash k plaintext = do
    s ← get
    ciphertext ← lift (encrypt_with_ad k 0 s.h plaintext)
    mix_hash ciphertext
    lift (ok ciphertext)

  -- `let p = decrypt_with_ad(&k, 0, &self.h, c)?; self.mix_hash(c);`
  decrypt_and_hash : List ℕ → List ℕ → Handshake (List ℕ)
  unfolding mix_hash
  decrypt_and_hash k ciphertext = do
    s ← get
    plaintext ← lift (decrypt_with_ad k 0 s.h ciphertext)
    mix_hash ciphertext
    lift (ok plaintext)

  -- The state is tested only for an initiator.
  pub create_message1 : List ℕ → Handshake (List ℕ)
  unfolding mix_hash
  create_message1 static_ephemeral = do
    s ← get
    ensure (not s.is_initiator || is_new s.state) invalid_handshake_state
    mix_hash (x25519_public static_ephemeral)
    enter (init_sent_msg1 static_ephemeral (x25519_public static_ephemeral))
    lift (ok (x25519_public static_ephemeral))

  pub process_message1_create_message2 : List ℕ → List ℕ → Handshake (List ℕ)
  unfolding mix_hash next_key encrypt_and_hash
  process_message1_create_message2 our_ephemeral_secret msg1 = do
    ensure (length msg1 == 32) handshake_failed
    mix_hash msg1
    mix_hash (x25519_public our_ephemeral_secret)
    k1 ← next_key (diffie_hellman our_ephemeral_secret msg1)
    s ← get
    encrypted_static ← encrypt_and_hash k1 s.identity.x25519_public_key
    k2 ← next_key (diffie_hellman s.identity.x25519_static_secret msg1)
    encrypted_payload ← encrypt_and_hash k2 []
    enter (resp_sent_msg2 msg1 our_ephemeral_secret)
    lift (ok (x25519_public our_ephemeral_secret ++ (encrypted_static ++ encrypted_payload)))

  -- Message 2 for an initiator that has sent message 1 with this ephemeral secret.
  pub message2_received : List ℕ → List ℕ → Handshake (List ℕ)
  unfolding mix_hash next_key encrypt_and_hash decrypt_and_hash
  message2_received ephemeral_secret msg2 = do
    ensure (leb 96 (length msg2)) handshake_failed
    let remote_ephemeral = take 32 msg2
    mix_hash remote_ephemeral
    k1 ← next_key (diffie_hellman ephemeral_secret remote_ephemeral)
    remote_static_bytes ← decrypt_and_hash k1 (take 48 (drop 32 msg2))
    remote_static ← copied remote_static_bytes
    k2 ← next_key (diffie_hellman ephemeral_secret remote_static)
    payload ← decrypt_and_hash k2 (drop 80 msg2)
    k3 ← next_key []
    s ← get
    encrypted_our_static ← encrypt_and_hash k3 s.identity.x25519_public_key
    k4 ← next_key (diffie_hellman s.identity.x25519_static_secret remote_ephemeral)
    t ← get
    let (send_key, recv_key) = hkdf t.ck []
    enter (complete send_key recv_key remote_static)
    lift (ok encrypted_our_static)

  pub message2_in : InternalState → List ℕ → Handshake (List ℕ)
  unfolding message2_received
  message2_in new msg2 s = (s, err invalid_handshake_state)
  message2_in (init_sent_msg1 ephemeral_secret public) msg2 s =
      message2_received ephemeral_secret msg2 s
  message2_in (resp_sent_msg2 remote secret) msg2 s = (s, err invalid_handshake_state)
  message2_in (complete send_key recv_key remote) msg2 s = (s, err invalid_handshake_state)

  pub process_message2_create_message3 : List ℕ → Handshake (List ℕ)
  unfolding message2_in
  process_message2_create_message3 msg2 s = message2_in s.state msg2 s

  -- Message 3 for a responder that has sent message 2 with this ephemeral secret.
  pub message3_received : List ℕ → List ℕ → Handshake (Unit {0})
  unfolding next_key decrypt_and_hash
  message3_received our_ephemeral_secret msg3 = do
    k3 ← next_key []
    remote_static_bytes ← decrypt_and_hash k3 msg3
    remote_static ← copied remote_static_bytes
    k4 ← next_key (diffie_hellman our_ephemeral_secret remote_static)
    t ← get
    let (recv_key, send_key) = hkdf t.ck []
    enter (complete send_key recv_key remote_static)

  pub message3_in : InternalState → List ℕ → Handshake (Unit {0})
  unfolding message3_received
  message3_in new msg3 s = (s, err invalid_handshake_state)
  message3_in (init_sent_msg1 secret public) msg3 s = (s, err invalid_handshake_state)
  message3_in (resp_sent_msg2 remote our_ephemeral_secret) msg3 s =
      message3_received our_ephemeral_secret msg3 s
  message3_in (complete send_key recv_key remote) msg3 s = (s, err invalid_handshake_state)

  pub process_message3 : List ℕ → Handshake (Unit {0})
  unfolding message3_in
  process_message3 msg3 s = message3_in s.state msg3 s

pub into_session_keys : NoiseHandshake → Outcome CryptoError SessionKeys
into_session_keys s = elim s.state [
  | complete send_key recv_key remote_static ↦
      ok (record { send_key = send_key; recv_key = recv_key; remote_static = remote_static })
  | _ ↦ err invalid_handshake_state
]

pub is_complete : NoiseHandshake → Bool
is_complete s = elim s.state [ complete send_key recv_key remote ↦ true | _ ↦ false ]
