-- ===== src/Crypto/Session/Sending.antt =====
-- The sending side of crates/ceky-crypto/src/session.rs: which nonces go out.
use mathlib.Core.List.{append_cancel_left}
use ceky_p2p.Common.{
  ℕ, ◌+◌, ◌^◌, ◌≤◌, ◌<◌, ◌≡◌, ◌≢◌, ◌%◌, refl, subst, arith, List, [], ◌∷◌, map, length, replicate,
  All, some, sym, ap, ltb, Bool-cases, Option-cases, inl, inr,
}
use ceky_p2p.Common.Bytes.{le_bytes-injective}
use ceky_p2p.Common.Outcome.{Outcome, ok, err, panic, ok-injective}
use ceky_p2p.Crypto.Aead.{Aead}
use ceky_p2p.Crypto.Session.{CryptoError, SecureSession, max_nonce, build_nonce, encrypt_with_ad}

build_nonce-injective : (m n : ℕ) → m < 2 ^ 64 → n < 2 ^ 64 → build_nonce m ≡ build_nonce n → m ≡ n
unfolding build_nonce
build_nonce-injective m n hm hn e =
    le_bytes-injective 8 m n hm hn (append_cancel_left (replicate 4 0) _ _ e)

-- From lo on, one above the other, and none above the limit.
abbrev Increasing : ℕ → List ℕ → Type 0
Increasing lo [] = Unit {0}
Increasing lo (n ∷ ns) = (lo ≤ n) × (n ≤ max_nonce) × Increasing (n + 1) ns

abbrev pub NoRepeat : List (List ℕ) → Type 0
NoRepeat [] = Unit {0}
NoRepeat (x ∷ xs) = All (λ y. x ≢ y) xs × NoRepeat xs

Increasing-le : (a b : ℕ) (ns : List ℕ) → a ≤ b → Increasing b ns → Increasing a ns
Increasing-le a b [] h i = tt
Increasing-le a b (n ∷ ns) h i = (omega arith, i.1, i.2)

-- A ciphertext that a session gave, with its counter and what it was made from.
pub record Sealing : Type 0 where
  pub counter : ℕ
  pub ad : List ℕ
  pub plaintext : List ℕ
  pub ciphertext : List ℕ

abbrev pub nonce_of : Sealing → List ℕ
nonce_of x = build_nonce x.counter

nonce_of-ne :
    (m lo : ℕ) (xs : List Sealing)
    → m < lo
    → Increasing lo (map (λ x. x.counter) xs)
    → All (λ y. build_nonce m ≢ y) (map nonce_of xs)
nonce_of-ne m lo [] h i = tt
nonce_of-ne m lo (x ∷ xs) h i = (
  λ e. absurd (
      omega (
        arith,
        build_nonce-injective m x.counter (omega (arith, i.0, i.1)) (omega (arith, i.1)) e,
        i.0,
      )),
  nonce_of-ne m (x.counter + 1) xs (omega (arith, i.0)) i.2,
)

Increasing-NoRepeat :
    (lo : ℕ) (xs : List Sealing)
    → Increasing lo (map (λ x. x.counter) xs)
    → NoRepeat (map nonce_of xs)
Increasing-NoRepeat lo [] i = tt
Increasing-NoRepeat lo (x ∷ xs) i = (
  nonce_of-ne x.counter (x.counter + 1) xs (omega arith) i.2,
  Increasing-NoRepeat (x.counter + 1) xs i.2,
)

module _ (aead : Aead) where
  -- The ciphertext of a call, if it gave one, before the later ones.
  abbrev sealed_first :
      List ℕ → List ℕ → Outcome CryptoError (ℕ × List ℕ) → List Sealing → List Sealing
  sealed_first plaintext ad (ok (n, c)) rest =
      record { counter = n; ad = ad; plaintext = plaintext; ciphertext = c } ∷ rest
  sealed_first plaintext ad (err _) rest = rest
  sealed_first plaintext ad panic rest = rest

  -- The ciphertexts that a session makes from messages with their associated data.
  unfoldable pub sent : SecureSession aead → List (List ℕ × List ℕ) → List Sealing
  sent s [] = []
  sent s ((plaintext, ad) ∷ rest) =
      let (s', r) = encrypt_with_ad aead s plaintext ad in
      sealed_first plaintext ad r (sent s' rest)

  -- The cipher made the ciphertext under the nonce of the counter.
  abbrev pub IsSealed : aead.Cipher → Sealing → Type 0
  IsSealed cipher x = aead.encrypt cipher (nonce_of x) x.ad x.plaintext ≡ some x.ciphertext

  encrypt_with_ad-nonce :
      (s : SecureSession aead) (plaintext ad : List ℕ) {n : ℕ} {ciphertext : List ℕ}
      → (encrypt_with_ad aead s plaintext ad).1 ≡ ok (n, ciphertext)
      → (n ≡ s.send_nonce)
        × (n ≤ max_nonce)
        × (aead.encrypt s.send_cipher (build_nonce n) ad plaintext ≡ some ciphertext)
  unfolding encrypt_with_ad
  encrypt_with_ad-nonce s plaintext ad {n} {ciphertext} e =
      elim (Bool-cases (ltb max_nonce s.send_nonce)) [
        | inl over ↦ cc (rw over at e)
        | inr room ↦
            elim (Option-cases
              (aead.encrypt s.send_cipher (build_nonce s.send_nonce) ad plaintext)) [
                | inl refused ↦ cc (rw (room, refused) at e)
                | inr (c, made) ↦
                    let given = ok-injective (rw (room, made) at e) in
                    let at : s.send_nonce ≡ n = ap (λ x. x.0) given in
                    let this : c ≡ ciphertext = ap (λ x. x.1) given in
                    (sym at, ground arith, rw (at, this) at made)
              ]
      ]

  sealed_first-Increasing :
      (n : ℕ) (plaintext ad : List ℕ) (r : Outcome CryptoError (ℕ × List ℕ)) (xs : List Sealing)
      → ((m : ℕ) (c : List ℕ) → r ≡ ok (m, c) → (m ≡ n) × (m ≤ max_nonce))
      → Increasing (n + 1) (map (λ x. x.counter) xs)
      → Increasing n (map (λ x. x.counter) (sealed_first plaintext ad r xs))
  sealed_first-Increasing n plaintext ad (ok (m, c)) xs h i =
      let (same, small) = h m c refl in
      (omega arith, small, Increasing-le (m + 1) (n + 1) (map (λ x. x.counter) xs) (omega arith) i)
  sealed_first-Increasing n plaintext ad (err e) xs h i =
      Increasing-le n (n + 1) (map (λ x. x.counter) xs) (omega arith) i
  sealed_first-Increasing n plaintext ad panic xs h i =
      Increasing-le n (n + 1) (map (λ x. x.counter) xs) (omega arith) i

  sealed_first-IsSealed :
      (cipher : aead.Cipher) (plaintext ad : List ℕ) (r : Outcome CryptoError (ℕ × List ℕ))
      (xs : List Sealing)
      → ((m : ℕ) (c : List ℕ)
          → r ≡ ok (m, c)
          → aead.encrypt cipher (build_nonce m) ad plaintext ≡ some c)
      → All (IsSealed cipher) xs
      → All (IsSealed cipher) (sealed_first plaintext ad r xs)
  sealed_first-IsSealed cipher plaintext ad (ok (m, c)) xs h i = (h m c refl, i)
  sealed_first-IsSealed cipher plaintext ad (err e) xs h i = i
  sealed_first-IsSealed cipher plaintext ad panic xs h i = i

  sent-Increasing :
      (s : SecureSession aead) (messages : List (List ℕ × List ℕ))
      → s.send_nonce + length messages < 2 ^ 64
      → Increasing s.send_nonce (map (λ x. x.counter) (sent s messages))
  unfolding sent encrypt_with_ad
  sent-Increasing s [] h = tt
  sent-Increasing s ((plaintext, ad) ∷ rest) h =
      let s' : SecureSession aead = (encrypt_with_ad aead s plaintext ad).0 in
      let e : (s.send_nonce + 1) % 2 ^ 64 ≡ s.send_nonce + 1 = omega arith in
      sealed_first-Increasing s.send_nonce plaintext ad (encrypt_with_ad aead s plaintext ad).1
        (sent s' rest)
        (λ m c came. let (at, small, _) = encrypt_with_ad-nonce s plaintext ad came in (at, small))
        (subst (λ (t : ℕ). Increasing t (map (λ x. x.counter) (sent s' rest))) e
          (sent-Increasing s' rest (omega (arith, e))))

  sent-IsSealed :
      (s : SecureSession aead) (messages : List (List ℕ × List ℕ))
      → All (IsSealed s.send_cipher) (sent s messages)
  unfolding sent encrypt_with_ad
  sent-IsSealed s [] = tt
  sent-IsSealed s ((plaintext, ad) ∷ rest) =
      let s' : SecureSession aead = (encrypt_with_ad aead s plaintext ad).0 in
      sealed_first-IsSealed s.send_cipher plaintext ad (encrypt_with_ad aead s plaintext ad).1
        (sent s' rest) (λ m c came. (encrypt_with_ad-nonce s plaintext ad came).2)
        (sent-IsSealed s' rest)

  -- Until 2 ^ 64 calls have been made, each ciphertext that a session gives is what its cipher makes of
  -- the message and the associated data under the 12-byte nonce of the counter given with it, and no two
  -- of these nonces are the same.
  pub sent-NoRepeat :
      (s : SecureSession aead) (messages : List (List ℕ × List ℕ))
      → s.send_nonce + length messages < 2 ^ 64
      → All (IsSealed s.send_cipher) (sent s messages) × NoRepeat (map nonce_of (sent s messages))
  sent-NoRepeat s messages h = (
    sent-IsSealed s messages,
    Increasing-NoRepeat s.send_nonce (sent s messages) (sent-Increasing s messages h),
  )
