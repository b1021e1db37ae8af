-- ===== src/Crypto/Noise/Messages.antt =====
-- What each message of crates/ceky-crypto/src/noise.rs does when nothing fails.
use ceky_p2p.Common.{
  ℕ, ◌≡◌, refl, true, leb, le→leb, arith, List, [], ◌++◌, length, take, drop, length-append,
  take-append_of, drop-append_of, drop-drop,
}
use ceky_p2p.Common.Outcome.{ok}
use ceky_p2p.Crypto.Suite.{Suite}
use ceky_p2p.Crypto.Noise.{
  NoiseHandshake, resp_sent_msg2, complete, hkdf, encrypt_with_ad, decrypt_with_ad,
  process_message1_create_message2, message2_received, message3_received,
}

module _ (suite : Suite) where
  open suite use {sha256, x25519_public, diffie_hellman}

  abbrev pub ckey : List ℕ → List ℕ → List ℕ
  ckey ck input = (hkdf suite ck input).0

  abbrev pub key : List ℕ → List ℕ → List ℕ
  key ck input = (hkdf suite ck input).1

  pub message1_answered :
      (s : NoiseHandshake) (secret msg1 c1 c2 : List ℕ)
      → let h2 = sha256 (sha256 (s.h ++ msg1) ++ x25519_public secret) in
        let ee = diffie_hellman secret msg1 in
        let es = diffie_hellman s.identity.x25519_static_secret msg1 in
        let h3 = sha256 (h2 ++ c1) in
        length msg1 ≡ 32
        → encrypt_with_ad suite (key s.ck ee) 0 h2 s.identity.x25519_public_key ≡ ok c1
        → encrypt_with_ad suite (key (ckey s.ck ee) es) 0 h3 [] ≡ ok c2
        → process_message1_create_message2 suite secret msg1 s ≡ (
          record s {
            h = sha256 (h3 ++ c2);
            ck = ckey (ckey s.ck ee) es;
            state = resp_sent_msg2 msg1 secret;
          },
          ok (x25519_public secret ++ (c1 ++ c2)),
        )
  unfolding process_message1_create_message2
  message1_answered s secret msg1 c1 c2 long e1 e2 = rw (long, e1, e2) refl

  -- Message 2 at an initiator to which the two results of DH are ee and es.
  pub message2_accepted :
      (s : NoiseHandshake) (secret xb c1 c2 c3 rs ee es : List ℕ)
      → let h1 = sha256 (s.h ++ xb) in
        let h2 = sha256 (h1 ++ c1) in
        let h3 = sha256 (h2 ++ c2) in
        let ck2 = ckey (ckey s.ck ee) es in
        let ck4 = ckey (ckey ck2 []) (diffie_hellman s.identity.x25519_static_secret xb) in
        length xb ≡ 32
        → length c1 ≡ 48
        → length c2 ≡ 16
        → length rs ≡ 32
        → diffie_hellman secret xb ≡ ee
        → diffie_hellman secret rs ≡ es
        → decrypt_with_ad suite (key s.ck ee) 0 h1 c1 ≡ ok rs
        → decrypt_with_ad suite (key (ckey s.ck ee) es) 0 h2 c2 ≡ ok []
        → encrypt_with_ad suite (key ck2 []) 0 h3 s.identity.x25519_public_key ≡ ok c3
        → message2_received suite secret (xb ++ (c1 ++ c2)) s ≡ (
          record s {
            h = sha256 (h3 ++ c3);
            ck = ck4;
            state = complete (ckey ck4 []) (key ck4 []) rs;
          },
          ok c3,
        )
  unfolding message2_received
  message2_accepted s secret xb c1 c2 c3 rs ee es lx l1 l2 lr dh_ee dh_es d1 d2 e3 =
      rw (fits, first, second, third, dh_ee, d1, lr, dh_es, d2, e3) refl
    where
      fits : leb 96 (length (xb ++ (c1 ++ c2))) ≡ true
      fits = le→leb _ _ (omega (arith, length-append xb (c1 ++ c2), length-append c1 c2))

      first : take 32 (xb ++ (c1 ++ c2)) ≡ xb
      first = take-append_of 32 xb (c1 ++ c2) lx

      after : drop 32 (xb ++ (c1 ++ c2)) ≡ c1 ++ c2
      after = drop-append_of 32 xb (c1 ++ c2) lx

      second : take 48 (drop 32 (xb ++ (c1 ++ c2))) ≡ c1
      second = rw after (take-append_of 48 c1 c2 l1)

      third : drop 80 (xb ++ (c1 ++ c2)) ≡ c2
      third = rw (drop-drop 32 48 (xb ++ (c1 ++ c2)), after) (drop-append_of 48 c1 c2 l1)

  -- Message 3 at a responder to which the last result of DH is se.
  pub message3_accepted :
      (s : NoiseHandshake) (secret c3 rs se : List ℕ)
      → let ck3 = ckey s.ck [] in
        let ck4 = ckey ck3 se in
        length rs ≡ 32
        → diffie_hellman secret rs ≡ se
        → decrypt_with_ad suite (key s.ck []) 0 s.h c3 ≡ ok rs
        → message3_received suite secret c3 s ≡ (
          record s {
            h = sha256 (s.h ++ c3);
            ck = ck4;
            state = complete (key ck4 []) (ckey ck4 []) rs;
          },
          ok tt,
        )
  unfolding message3_received
  message3_accepted s secret c3 rs se lr dh_se d3 = rw (d3, lr, dh_se) refl
