-- ===== src/Crypto/PeerId/Distance.antt =====
-- What the bucket index of crates/ceky-crypto/src/identity.rs says of the XOR distance.
use native.Mathlib.Nat.{mul-le-mul_left}
use ceky_p2p.Common.{
  ℕ, suc, ◌+◌, ◌-◌, ◌*◌, ◌/◌, ◌%◌, ◌^◌, ◌≤◌, ◌<◌, ◌≡◌, ◌↔◌, refl, sym, ◌∙◌, ap, subst, arith, none,
  some, List, [], ◌∷◌, length, All, eq→==, ne→==,
}
use mathlib.Core.Path.{ap₂}
use native.Mathlib.Decide.{ℕ_discrete}
use ceky_p2p.Common.Bytes.{IsByte, from_be, from_be-lt}
use ceky_p2p.Crypto.PeerId.Xor.{bit_xor-IsByte, bit_xor_comm, bit_xor_self, bit_xor-eq}
use ceky_p2p.Crypto.PeerId.{PeerId, IsPeerId, xor_distance, leading_zeros, first_set, bucket_index}

pub length-xor_distance :
    (a b : PeerId) → length a ≡ length b → length (xor_distance a b) ≡ length a
unfolding xor_distance
length-xor_distance [] ys h = refl
length-xor_distance (a ∷ xs) [] h = absurd (omega arith)
length-xor_distance (a ∷ xs) (b ∷ ys) h = ap suc (length-xor_distance xs ys (omega arith))

xor_distance-IsByte : (a b : PeerId) → All IsByte a → All IsByte b → All IsByte (xor_distance a b)
unfolding xor_distance
xor_distance-IsByte [] ys ha hb = tt
xor_distance-IsByte (a ∷ xs) [] ha hb = tt
xor_distance-IsByte (a ∷ xs) (b ∷ ys) ha hb =
    (bit_xor-IsByte a b ha.0 hb.0, xor_distance-IsByte xs ys ha.1 hb.1)

pub xor_distance_comm :
    (a b : PeerId)
    → length a ≡ length b
    → All IsByte a
    → All IsByte b
    → xor_distance a b ≡ xor_distance b a
unfolding xor_distance
xor_distance_comm [] [] h ha hb = refl
xor_distance_comm [] (b ∷ ys) h ha hb = absurd (omega arith)
xor_distance_comm (a ∷ xs) [] h ha hb = absurd (omega arith)
xor_distance_comm (a ∷ xs) (b ∷ ys) h ha hb =
    rw (bit_xor_comm a b ha.0 hb.0, xor_distance_comm xs ys (omega arith) ha.1 hb.1)

-- The highest set bit of a byte.
leading_zeros_bounds :
    (b : ℕ)
    → 0 < b
    → b < 256
    → (2 ^ (7 - leading_zeros b) ≤ b)
      × (b < 2 * 2 ^ (7 - leading_zeros b))
      × (7 - leading_zeros b < 8)
unfolding leading_zeros
leading_zeros_bounds b h0 h = ground arith

-- A number with the digit b above a base and the remainder r below it.
digit_bounds :
    (base r b h : ℕ)
    → r < base
    → h ≤ b
    → b < 2 * h
    → (base * h ≤ b * base + r) × (b * base + r < base * (2 * h))
digit_bounds base r b h hr lo hi =
    (omega (arith, mul-le-mul_left base lo), omega (arith, mul-le-mul_left base hi))

-- The distance, as a big-endian number, lies between the power of two at its highest set bit and
-- twice that power; the index counts bytes from the front and bits from the back.
first_set-bounds :
    (k i : ℕ) (ds : List ℕ)
    → All IsByte ds
    → first_set k ds ≡ some i
    → (k ≤ i / 8)
      × (i / 8 < k + length ds)
      × (256 ^ (k + length ds - 1 - i / 8) * 2 ^ (i % 8) ≤ from_be ds)
      × (from_be ds < 256 ^ (k + length ds - 1 - i / 8) * (2 * 2 ^ (i % 8)))
unfolding first_set from_be
first_set-bounds k i [] h e = cc
first_set-bounds k i (b ∷ ys) h e = elim (ℕ_discrete b 0) [
  | yes z ↦
      let (lo, hi, below, above) = first_set-bounds (suc k) i ys h.1 (rw (eq→== b 0 z) at e) in
      let place : suc k + length ys - 1 - i / 8 ≡ k + suc (length ys) - 1 - i / 8 = omega arith in
      let value : b * 256 ^ length ys + from_be ys ≡ from_be ys = rw z (omega arith) in
      (omega arith, omega arith, rw (← place, value) below, rw (← place, value) above)
  | no nz ↦
      let high : ℕ = 7 - leading_zeros b in
      let (lo, hi, small) = leading_zeros_bounds b (omega arith) h.0 in
      let at : i ≡ k * 8 + high = ground arith in
      let byte : i / 8 ≡ k = omega arith in
      let offset : i % 8 ≡ high = omega arith in
      let place : k + suc (length ys) - 1 - k ≡ length ys = omega arith in
      let (below, above) =
        digit_bounds (256 ^ length ys) (from_be ys) b (2 ^ high) (from_be-lt ys h.1) lo hi in
      rw (byte, offset, place) (omega arith, omega arith, below, above)
]

first_set-none : (k : ℕ) (ds : List ℕ) → first_set k ds ≡ none → All (λ d. d ≡ 0) ds
unfolding first_set
first_set-none k [] e = tt
first_set-none k (d ∷ ds) e = elim (ℕ_discrete d 0) [
  | yes z ↦ (z, first_set-none (suc k) ds (rw (eq→== d 0 z) at e))
  | no nz ↦ cc (ne→== d 0 nz, e)
]

first_set-zero : (k : ℕ) (ds : List ℕ) → All (λ d. d ≡ 0) ds → first_set k ds ≡ none
unfolding first_set
first_set-zero k [] h = refl
first_set-zero k (d ∷ ds) h = rw (eq→== d 0 h.0) (first_set-zero (suc k) ds h.1)

xor_distance-zero :
    (a b : PeerId)
    → length a ≡ length b
    → All IsByte a
    → All IsByte b
    → All (λ d. d ≡ 0) (xor_distance a b)
    → a ≡ b
unfolding xor_distance
xor_distance-zero [] [] h ha hb z = refl
xor_distance-zero [] (b ∷ ys) h ha hb z = absurd (omega arith)
xor_distance-zero (a ∷ xs) [] h ha hb z = absurd (omega arith)
xor_distance-zero (a ∷ xs) (b ∷ ys) h ha hb z =
    ap₂ ◌∷◌ (bit_xor-eq a b ha.0 hb.0 z.0) (xor_distance-zero xs ys (omega arith) ha.1 hb.1 z.1)

xor_distance_self : (a : PeerId) → All IsByte a → All (λ d. d ≡ 0) (xor_distance a a)
unfolding xor_distance
xor_distance_self [] h = tt
xor_distance_self (a ∷ xs) h = (bit_xor_self a h.0, xor_distance_self xs h.1)

-- Two peers have no bucket for one another exactly if they are the same.
pub bucket_index-none_iff :
    (a b : PeerId) → IsPeerId a → IsPeerId b → (bucket_index a b ≡ none) ↔ (a ≡ b)
unfolding bucket_index
bucket_index-none_iff a b va vb = (
  λ e. xor_distance-zero a b (va.0 ∙ sym vb.0) va.1 vb.1 (first_set-none 0 (xor_distance a b) e),
  λ e.
      subst (λ (x : PeerId). first_set 0 (xor_distance a x) ≡ none) e
        (first_set-zero 0 (xor_distance a a) (xor_distance_self a va.1)),
)

-- Two peers have the same bucket index for one another.
pub bucket_index_comm :
    (a b : PeerId) → IsPeerId a → IsPeerId b → bucket_index a b ≡ bucket_index b a
unfolding bucket_index
bucket_index_comm a b va vb = ap (first_set 0) (xor_distance_comm a b (va.0 ∙ sym vb.0) va.1 vb.1)

-- For two peer ids of 32 bytes, a bucket index is below 256, and it holds the peers whose distance, as
-- a big-endian number, has its highest bit at bit i % 8 of byte i / 8, counted from the front.
pub bucket_index-bounds :
    (a b : PeerId) (i : ℕ)
    → IsPeerId a
    → IsPeerId b
    → bucket_index a b ≡ some i
    → (i < 256)
      × (256 ^ (31 - i / 8) * 2 ^ (i % 8) ≤ from_be (xor_distance a b))
      × (from_be (xor_distance a b) < 256 ^ (31 - i / 8) * (2 * 2 ^ (i % 8)))
unfolding bucket_index
bucket_index-bounds a b i va vb e =
    let len : length (xor_distance a b) ≡ 32 = length-xor_distance a b (va.0 ∙ sym vb.0) ∙ va.0 in
    let (_, hi, below, above) =
      first_set-bounds 0 i (xor_distance a b) (xor_distance-IsByte a b va.1 vb.1) e in
    let place : 0 + length (xor_distance a b) - 1 - i / 8 ≡ 31 - i / 8 = omega (arith, len) in
    (omega (arith, len), rw (← place) below, rw (← place) above)
