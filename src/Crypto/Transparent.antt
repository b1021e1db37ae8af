-- ===== src/Crypto/Transparent.antt =====
-- Primitives that hide nothing, on which crates/ceky-crypto can be run in tests: they meet all that
-- `Suite` asks for.
use ceky_p2p.Common.{
  ℕ, ◌+◌, ◌-◌, ◌≤◌, ◌≡◌, refl, subst, true, inl, inr, Bool-cases, Option, none, some, leb, le→leb,
  if◌then◌else◌, arith, List, [], ◌∷◌, ◌++◌, length, take, replicate, length-append, length-take,
  length-replicate, take-append,
}
use ceky_p2p.Crypto.Aead.{Aead}
use ceky_p2p.Crypto.Suite.{Suite}

abbrev pub seal : List ℕ → List ℕ
seal m = m ++ replicate 16 0

abbrev pub unseal : List ℕ → Option (List ℕ)
unseal c = if leb 16 (length c) then some (take (length c - 16) c) else none

unseal-seal : (m : List ℕ) → unseal (seal m) ≡ some m
unseal-seal m =
    let size : length (seal m) ≡ length m + 16 =
      omega (arith, length-append m (replicate 16 0), length-replicate {A = ℕ} 16 0) in
    let large : leb 16 (length (seal m)) ≡ true = le→leb _ _ (omega arith) in
    let less : length (seal m) - 16 ≡ length m = omega arith in
    rw (large, less, take-append m (replicate 16 0)) refl

pub unseal_sealed :
    (m c : List ℕ) → ◌≡◌ {A = Option (List ℕ)} (some (seal m)) (some c) → unseal c ≡ some m
unseal_sealed m c e =
    let e' : seal m ≡ c = cc in subst (λ (x : List ℕ). unseal x ≡ some m) e' (unseal-seal m)

pub length-seal :
    (m c : List ℕ) → ◌≡◌ {A = Option (List ℕ)} (some (seal m)) (some c) → length c ≡ length m + 16
length-seal m c e =
    let e' : seal m ≡ c = cc in
    rw (← e') (omega (arith, length-append m (replicate 16 0), length-replicate {A = ℕ} 16 0))

pub length-unseal : (c m : List ℕ) → unseal c ≡ some m → length c ≡ length m + 16
length-unseal c m e = elim (Bool-cases (leb 16 (length c))) [
  | inl large ↦
      let low : 16 ≤ length c = ground (arith, large) in
      let e' : take (length c - 16) c ≡ m = cc in
      rw (← e') (omega (arith, length-take (length c - 16) c))
  | inr small ↦ cc
]

abbrev pub transparent : Aead
transparent = record {
  Cipher = Unit {0};
  new_from_slice = λ key. some tt;
  encrypt = λ c nonce ad m. some (seal m);
  decrypt = λ c nonce ad m. unseal m;
  decrypt-encrypt = λ c nonce ad m sealed e. unseal_sealed m sealed e;
}

-- The first 32 bytes, filled with zeros.
abbrev pub padded : List ℕ → List ℕ
padded m = take 32 (m ++ replicate 32 0)

pub length-padded : (m : List ℕ) → length (padded m) ≡ 32
length-padded m = omega (
  arith,
  length-take 32 (m ++ replicate 32 0),
  length-append m (replicate 32 0),
  length-replicate {A = ℕ} 32 0,
)

abbrev pub sums : List ℕ → List ℕ → List ℕ
sums [] ys = []
sums (x ∷ xs) [] = []
sums (x ∷ xs) (y ∷ ys) = (x + y) ∷ sums xs ys

pub sums_comm : (xs ys : List ℕ) → sums xs ys ≡ sums ys xs
sums_comm [] [] = refl
sums_comm [] (y ∷ ys) = refl
sums_comm (x ∷ xs) [] = refl
sums_comm (x ∷ xs) (y ∷ ys) = let e : x + y ≡ y + x = omega arith in rw (e, sums_comm xs ys) refl

abbrev pub open_suite : Suite
open_suite = record {
  aead = transparent;
  sha256 = padded;
  x25519_public = padded;
  diffie_hellman = λ s p. sums (padded s) p;
  verifying_key = λ k. k;
  sign = λ k m. m;
  verify = λ k m s. true;
  length-sha256 = length-padded;
  length-x25519_public = length-padded;
  diffie_hellman_comm = λ s t. sums_comm (padded s) (padded t);
  verify-sign = λ k m. refl;
  key_accepted = λ key long. (tt, refl);
  short_sealed = λ c nonce ad m short. (seal m, refl);
  length-encrypt = λ c nonce ad m sealed e. length-seal m sealed e;
  length-decrypt = λ c nonce ad m opened e. length-unseal m opened e;
}
