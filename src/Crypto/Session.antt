-- ===== src/Crypto/Session.antt =====
-- `SecureSession` of crates/ceky-crypto/src/session.rs. An atomic counter is a field, and each call is
-- one step: the calls of several threads are some sequence of these steps.
pub mod Sending
pub mod Receiving
mod Tests
use ceky_p2p.Common.{
  ℕ, ◌+◌, ◌-◌, ◌%◌, ◌^◌, max, Bool, List, [], ◌∷◌, ◌++◌, Option, none, some, ltb, if◌then◌else◌,
  replicate,
}
use ceky_p2p.Common.Bytes.{le_bytes}
use ceky_p2p.Common.Outcome.{Outcome, ok, err, ◌>>=◌}
use ceky_p2p.Crypto.Aead.{Aead}
use ceky_p2p.Crypto.Replay.{ReplayWindow, check_and_mark}
use ceky_p2p.Crypto.Replay as Replay

pub data CryptoError : Type 0 where
  handshake_failed invalid_handshake_state decryption_failed invalid_signature : CryptoError
  invalid_peer_id nonce_overflow key_generation_failed serialization io : CryptoError
  replay_detected : ℕ → CryptoError

abbrev pub max_nonce : ℕ
max_nonce = 2 ^ 48 - 1

pub record SessionKeys : Type 0 where
  pub send_key : List ℕ
  pub recv_key : List ℕ
  pub remote_static : List ℕ

-- The 12 bytes of a nonce: four zeros and the counter, lowest byte first.
pub build_nonce : ℕ → List ℕ
build_nonce counter = replicate 4 0 ++ le_bytes 8 counter

abbrev or_err {ℓ} : {A : Type ℓ} → Option A → CryptoError → Outcome CryptoError A
or_err none e = err e
or_err (some a) e = ok a

module _ (aead : Aead) where
  open aead use {Cipher, new_from_slice}

  pub record SecureSession : Type 0 where
    pub send_cipher : Cipher
    pub recv_cipher : Cipher
    pub send_nonce : ℕ
    pub recv_nonce_max : ℕ
    pub replay_window : ReplayWindow
    pub remote_static : List ℕ

  pub from_keys : SessionKeys → Outcome CryptoError SecureSession
  from_keys keys = do
    send_cipher ← or_err (new_from_slice keys.send_key) key_generation_failed
    recv_cipher ← or_err (new_from_slice keys.recv_key) key_generation_failed
    ok (record {
      send_cipher = send_cipher;
      recv_cipher = recv_cipher;
      send_nonce = 0;
      recv_nonce_max = 0;
      replay_window = Replay.new;
      remote_static = keys.remote_static;
    })

  -- The counter goes up, modulo 2 ^ 64, whatever becomes of the call.
  pub encrypt_with_ad :
      SecureSession → List ℕ → List ℕ → SecureSession × Outcome CryptoError (ℕ × List ℕ)
  encrypt_with_ad s plaintext ad =
      let nonce_val = s.send_nonce in
      let s' = record s { send_nonce = (nonce_val + 1) % 2 ^ 64 } in
      (
        s',
        (if ltb max_nonce nonce_val then err nonce_overflow else do
          ciphertext ←
              or_err (aead.encrypt s.send_cipher (build_nonce nonce_val) ad plaintext)
                handshake_failed
          ok (nonce_val, ciphertext)),
      )

  -- A plain message is one with no associated data.
  pub encrypt : SecureSession → List ℕ → SecureSession × Outcome CryptoError (ℕ × List ℕ)
  unfolding encrypt_with_ad
  encrypt s plaintext = encrypt_with_ad s plaintext []

  -- The nonce is marked before the cipher has checked the ciphertext.
  opened : SecureSession → ℕ → Option (List ℕ) → SecureSession × Outcome CryptoError (List ℕ)
  opened s nonce_val none = (s, err decryption_failed)
  opened s nonce_val (some plaintext) =
      (record s { recv_nonce_max = max s.recv_nonce_max nonce_val }, ok plaintext)

  pub decrypt_with_ad :
      SecureSession → ℕ → List ℕ → List ℕ → SecureSession × Outcome CryptoError (List ℕ)
  unfolding opened
  decrypt_with_ad s nonce_val ciphertext ad =
      let (window, fresh) = check_and_mark s.replay_window nonce_val in
      let s' = record s { replay_window = window } in
      if fresh
      then opened s' nonce_val (aead.decrypt s.recv_cipher (build_nonce nonce_val) ad ciphertext)
      else (s', err (replay_detected nonce_val))

  pub decrypt : SecureSession → ℕ → List ℕ → SecureSession × Outcome CryptoError (List ℕ)
  unfolding decrypt_with_ad
  decrypt s nonce_val ciphertext = decrypt_with_ad s nonce_val ciphertext []
