-- ===== src/Crypto/Session/Tests.antt =====
-- Sessions of crates/ceky-crypto/src/session.rs over a cipher that seals nothing.
use ceky_p2p.Common.{ℕ, ◌≡◌, refl, sym, arith, some, List, [], ◌∷◌, map, All}
use ceky_p2p.Common.Outcome.{ok, err}
use ceky_p2p.Crypto.Aead.{Aead}
use ceky_p2p.Crypto.Replay.{new}
use ceky_p2p.Crypto.Replay.Refines.{new-Stands}
use ceky_p2p.Crypto.Session.{nonce_overflow, SecureSession, from_keys, encrypt_with_ad}
use ceky_p2p.Crypto.Session.Sending.{NoRepeat, IsSealed, nonce_of, sent, sent-NoRepeat}
use ceky_p2p.Crypto.Session.Receiving.{channel, channel-lossless}

-- The ciphertext is the message.
abbrev clear : Aead
clear = record {
  Cipher = Unit {0};
  new_from_slice = λ key. some tt;
  encrypt = λ c nonce ad plaintext. some plaintext;
  decrypt = λ c nonce ad ciphertext. some ciphertext;
  decrypt-encrypt = λ c nonce ad plaintext ciphertext e. sym e;
}

abbrev session : SecureSession clear
session = record {
  send_cipher = tt;
  recv_cipher = tt;
  send_nonce = 0;
  recv_nonce_max = 0;
  replay_window = new;
  remote_static = [];
}

from_keys_gives :
    from_keys clear (record { send_key = []; recv_key = []; remote_static = [] }) ≡ ok session
unfolding from_keys
from_keys_gives = refl

abbrev messages : List (List ℕ × List ℕ)
messages = (1 ∷ 2 ∷ [], []) ∷ (3 ∷ [], 9 ∷ []) ∷ []

sent_counters : map (λ x. x.counter) (sent clear session messages) ≡ 0 ∷ 1 ∷ []
unfolding sent encrypt_with_ad
sent_counters = refl

exhausted :
    (encrypt_with_ad clear (record session { send_nonce = 0x1_0000_0000_0000 }) [] []).1
    ≡ err nonce_overflow
unfolding encrypt_with_ad
exhausted = refl

sent-NoRepeat_example :
    All (IsSealed clear tt) (sent clear session messages)
    × NoRepeat (map nonce_of (sent clear session messages))
sent-NoRepeat_example = sent-NoRepeat clear session messages (omega arith)

channel-lossless_example : channel clear session session messages ≡ map (λ m. ok m.0) messages
channel-lossless_example =
    channel-lossless clear 3 (λ c nonce ad m short. (m, refl)) session session [] messages refl
      new-Stands tt (omega arith) (omega arith)
