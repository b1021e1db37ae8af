-- ===== src/Crypto/Session/Receiving.antt =====
-- The receiving side of crates/ceky-crypto/src/session.rs: replays, and what arrives in order.
use ceky_p2p.Common.{
  ℕ, ◌+◌, ◌%◌, ◌^◌, ◌≤◌, ◌<◌, ◌≡◌, max, refl, ap, ◌∙◌, arith, List, [], ◌∷◌, true, false, some, map,
  length, All, ge→ltb,
}
use ceky_p2p.Common.Outcome.{Outcome, ok, err, panic}
use ceky_p2p.Crypto.Aead.{Aead}
use ceky_p2p.Crypto.Replay.{ReplayWindow, new, check_and_mark}
use ceky_p2p.Crypto.Replay.History.{accepts, record_accepted, record_accepted-accepts, accepts_next}
use ceky_p2p.Crypto.Replay.Refines.{Stands, check_and_mark-Stands}
use ceky_p2p.Crypto.Session.{
  CryptoError, replay_detected, SecureSession, SessionKeys, from_keys, max_nonce, build_nonce,
  encrypt_with_ad, decrypt_with_ad, opened,
}

All-lt_suc : (n : ℕ) (ms : List ℕ) → All (λ m. m < n) ms → All (λ m. m < n + 1) ms
All-lt_suc n [] h = tt
All-lt_suc n (m ∷ ms) h = (omega arith, All-lt_suc n ms h.1)

module _ (aead : Aead) where
  -- Whatever the cipher says, only the replay window of the new session moves.
  decrypt_with_ad-window :
      (s : SecureSession aead) (n : ℕ) (ciphertext ad : List ℕ)
      → (decrypt_with_ad aead s n ciphertext ad).0.replay_window
        ≡ (check_and_mark s.replay_window n).0
  unfolding decrypt_with_ad opened
  decrypt_with_ad-window s n ciphertext ad = ground arith

  -- After a call of `decrypt_with_ad` with a nonce, whether it succeeded or not, every later call with
  -- that nonce is refused as a replay, for a session whose window stands for a history.
  decrypt_twice :
      (s : SecureSession aead) (history : List ℕ) (n : ℕ) (first ad second ad' : List ℕ)
      → Stands s.replay_window history
      → (decrypt_with_ad aead (decrypt_with_ad aead s n first ad).0 n second ad').1
        ≡ err (replay_detected n)
  decrypt_twice s history n first ad second ad' h =
      let after = (check_and_mark-Stands s.replay_window history n h).1 in
      let s' : SecureSession aead = (decrypt_with_ad aead s n first ad).0 in
      let stale : (check_and_mark s'.replay_window n).1 ≡ false =
        ap (λ (w : ReplayWindow). (check_and_mark w n).1) (decrypt_with_ad-window s n first ad)
        ∙ (check_and_mark-Stands (check_and_mark s.replay_window n).0 (record_accepted history n) n
            after).0
        ∙ record_accepted-accepts history n in
      unfold decrypt_with_ad in rw stale

  -- Keys that the cipher accepts open a session.
  pub from_keys_accepted :
      (keys : SessionKeys) (c d : aead.Cipher)
      → aead.new_from_slice keys.send_key ≡ some c
      → aead.new_from_slice keys.recv_key ≡ some d
      → from_keys aead keys
        ≡ ok (record {
          send_cipher = c;
          recv_cipher = d;
          send_nonce = 0;
          recv_nonce_max = 0;
          replay_window = new;
          remote_static = keys.remote_static;
        })
  unfolding from_keys
  from_keys_accepted keys c d e f = rw (e, f) refl

  -- What a fresh nonce and an authentic ciphertext give.
  decrypt_with_ad_fresh :
      (s : SecureSession aead) (n : ℕ) (ciphertext ad plaintext : List ℕ)
      → (check_and_mark s.replay_window n).1 ≡ true
      → aead.decrypt s.recv_cipher (build_nonce n) ad ciphertext ≡ some plaintext
      → decrypt_with_ad aead s n ciphertext ad ≡ (
        record s {
          replay_window = (check_and_mark s.replay_window n).0;
          recv_nonce_max = max s.recv_nonce_max n;
        },
        ok plaintext,
      )
  unfolding decrypt_with_ad opened
  decrypt_with_ad_fresh s n ciphertext ad plaintext fresh e = rw (fresh, e)

  -- The receiver takes what the sender made, and then comes the rest.
  received :
      (SecureSession aead → List (Outcome CryptoError (List ℕ)))
      → SecureSession aead
      → List ℕ
      → Outcome CryptoError (ℕ × List ℕ)
      → List (Outcome CryptoError (List ℕ))
  received rest b ad (ok (n, ciphertext)) =
      let (b', out) = decrypt_with_ad aead b n ciphertext ad in out ∷ rest b'
  received rest b ad (err e) = err e ∷ rest b
  received rest b ad panic = panic ∷ rest b

  -- Each message goes through the sender and then the receiver, in order.
  pub channel :
      SecureSession aead
      → SecureSession aead
      → List (List ℕ × List ℕ)
      → List (Outcome CryptoError (List ℕ))
  channel a b [] = []
  channel a b ((plaintext, ad) ∷ rest) =
      let (a', r) = encrypt_with_ad aead a plaintext ad in
      received (λ b'. channel a' b' rest) b ad r

  encrypt_with_ad_sealed :
      (s : SecureSession aead) (plaintext ad ciphertext : List ℕ)
      → s.send_nonce ≤ max_nonce
      → aead.encrypt s.send_cipher (build_nonce s.send_nonce) ad plaintext ≡ some ciphertext
      → encrypt_with_ad aead s plaintext ad
        ≡ (record s { send_nonce = s.send_nonce + 1 }, ok (s.send_nonce, ciphertext))
  unfolding encrypt_with_ad
  encrypt_with_ad_sealed s plaintext ad ciphertext h e =
      let next : (s.send_nonce + 1) % 2 ^ 64 ≡ s.send_nonce + 1 = omega arith in
      rw (ge→ltb max_nonce s.send_nonce h, e, next)

  -- If the cipher seals every message below a length, the receiver opens with the sender's cipher,
  -- and its window stands for a history of nonces below the sender's counter, then messages below
  -- that length which are sent before the counter passes its limit arrive in order and unchanged.
  pub channel-lossless :
      (limit : ℕ)
      (seals : (c : aead.Cipher) (nonce ad m : List ℕ)
        → length m < limit
        → (sealed : List ℕ) × (aead.encrypt c nonce ad m ≡ some sealed))
      (a b : SecureSession aead) (history : List ℕ) (messages : List (List ℕ × List ℕ))
      → a.send_cipher ≡ b.recv_cipher
      → Stands b.replay_window history
      → All (λ m. m < a.send_nonce) history
      → a.send_nonce + length messages ≤ 2 ^ 48
      → All (λ m. length m.0 < limit) messages
      → channel a b messages ≡ map (λ m. ok m.0) messages
  unfolding channel received
  channel-lossless limit seals a b history [] same st below h short = refl
  channel-lossless limit seals a b history ((plaintext, ad) ∷ rest) same st below h short =
      let n : ℕ = a.send_nonce in
      let (ciphertext, sealed) = seals a.send_cipher (build_nonce n) ad plaintext short.0 in
      let (verdict, st') = check_and_mark-Stands b.replay_window history n st in
      let a' : SecureSession aead = record a { send_nonce = n + 1 } in
      let b' : SecureSession aead = record b {
        replay_window = (check_and_mark b.replay_window n).0;
        recv_nonce_max = max b.recv_nonce_max n;
      } in
      let next : accepts history n ≡ true = accepts_next n history below in
      let opens : aead.decrypt b.recv_cipher (build_nonce n) ad ciphertext ≡ some plaintext =
        rw (← same)
          (aead.decrypt-encrypt a.send_cipher (build_nonce n) ad plaintext ciphertext sealed) in
      rw
        (
          channel,
          encrypt_with_ad_sealed a plaintext ad ciphertext (omega arith) sealed,
          decrypt_with_ad_fresh b n ciphertext ad plaintext (verdict ∙ next) opens,
        )
        (ap (◌∷◌ (ok plaintext)) (
          channel-lossless limit seals a' b' (n ∷ history) rest same (rw next at st')
            (omega arith, All-lt_suc n history below) (omega arith) short.1))
