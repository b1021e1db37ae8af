-- ===== src/Crypto/PeerId/Xor.antt =====
-- `^` on bytes, as the XOR distance of crates/ceky-crypto/src/identity.rs uses it.
use Prim.Native.Nat.{bit_xor-bitwise, differ}
use ceky_p2p.Common.{ℕ, zero, suc, ◌+◌, ◌*◌, ◌/◌, ◌%◌, ◌^◌, ◌<◌, ◌≡◌, refl, sym, arith, bit_xor}
use native.Mathlib.Nat.{pow-suc}
use ceky_p2p.Common.Bytes.{IsByte}
use ceky_p2p.Common.Bits.{lowest_digit}

bit_xor_digit : (a b : ℕ) → bit_xor a b ≡ differ (a % 2) (b % 2) + 2 * bit_xor (a / 2) (b / 2)
bit_xor_digit zero b = simp bit_xor-bitwise (omega arith)
bit_xor_digit (suc a) b =
    simp bit_xor-bitwise (lowest_digit (λ y. y) differ (suc a) b (omega arith))

-- The digit at the end: 1 where the two digits differ.
differ_bits :
    (x y : ℕ) → x < 2 → y < 2 → (differ x y ≡ differ y x) × (differ x y < 2) × (differ x x ≡ 0)
differ_bits zero zero hx hy = (refl, omega arith, refl)
differ_bits zero (suc zero) hx hy = (refl, omega arith, refl)
differ_bits zero (suc (suc y)) hx hy = absurd (omega arith)
differ_bits (suc zero) zero hx hy = (refl, omega arith, refl)
differ_bits (suc zero) (suc zero) hx hy = (refl, omega arith, refl)
differ_bits (suc zero) (suc (suc y)) hx hy = absurd (omega arith)
differ_bits (suc (suc x)) y hx hy = absurd (omega arith)

differ-eq : (x y : ℕ) → x < 2 → y < 2 → differ x y ≡ 0 → x ≡ y
differ-eq zero y hx hy h = sym h
differ-eq (suc zero) zero hx hy h = h
differ-eq (suc zero) (suc zero) hx hy h = refl
differ-eq (suc zero) (suc (suc y)) hx hy h = absurd (omega arith)
differ-eq (suc (suc x)) y hx hy h = absurd (omega arith)

-- At every width n.
bit_xor_below :
    (n a b : ℕ)
    → a < 2 ^ n
    → b < 2 ^ n
    → (bit_xor a b < 2 ^ n) × (bit_xor a b ≡ bit_xor b a) × (bit_xor a a ≡ 0)
bit_xor_below zero a b ha hb =
    let za : a ≡ 0 = omega arith in
    let zb : b ≡ 0 = omega arith in rw (za, zb) (omega arith, refl, refl)
bit_xor_below (suc n) a b ha hb =
    let (lt, comm, self) =
      bit_xor_below n (a / 2) (b / 2) (omega (arith, pow-suc 2 n)) (omega (arith, pow-suc 2 n)) in
    let (dc, dl, ds) = differ_bits (a % 2) (b % 2) (omega arith) (omega arith) in
    (
      omega (arith, bit_xor_digit a b, lt, dl, pow-suc 2 n),
      omega (arith, bit_xor_digit a b, bit_xor_digit b a, comm, dc),
      omega (arith, bit_xor_digit a a, self, ds),
    )

bit_xor-eq_below : (n a b : ℕ) → a < 2 ^ n → b < 2 ^ n → bit_xor a b ≡ 0 → a ≡ b
bit_xor-eq_below zero a b ha hb h = omega arith
bit_xor-eq_below (suc n) a b ha hb h =
    let half : a / 2 ≡ b / 2 =
      bit_xor-eq_below n (a / 2) (b / 2) (omega (arith, pow-suc 2 n)) (omega (arith, pow-suc 2 n))
        (omega (arith, bit_xor_digit a b)) in
    let low : a % 2 ≡ b % 2 =
      differ-eq (a % 2) (b % 2) (omega arith) (omega arith) (omega (arith, bit_xor_digit a b)) in
    omega (arith, half, low)

pub bit_xor-IsByte : (a b : ℕ) → IsByte a → IsByte b → IsByte (bit_xor a b)
bit_xor-IsByte a b ha hb = (bit_xor_below 8 a b ha hb).0

pub bit_xor_comm : (a b : ℕ) → IsByte a → IsByte b → bit_xor a b ≡ bit_xor b a
bit_xor_comm a b ha hb = (bit_xor_below 8 a b ha hb).1

pub bit_xor_self : (a : ℕ) → IsByte a → bit_xor a a ≡ 0
bit_xor_self a ha = (bit_xor_below 8 a a ha ha).2

pub bit_xor-eq : (a b : ℕ) → IsByte a → IsByte b → bit_xor a b ≡ 0 → a ≡ b
bit_xor-eq a b ha hb h = bit_xor-eq_below 8 a b ha hb h

differ_twice : (x y : ℕ) → x < 2 → y < 2 → differ (differ x y) y ≡ x
differ_twice zero zero hx hy = refl
differ_twice zero (suc zero) hx hy = refl
differ_twice x (suc (suc y)) hx hy = absurd (omega arith)
differ_twice (suc zero) zero hx hy = refl
differ_twice (suc zero) (suc zero) hx hy = refl
differ_twice (suc (suc x)) y hx hy = absurd (omega arith)

-- `^` with the same number twice changes nothing.
pub bit_xor_twice : (n a b : ℕ) → a < 2 ^ n → b < 2 ^ n → bit_xor (bit_xor a b) b ≡ a
bit_xor_twice zero a b ha hb =
    let za : a ≡ 0 = omega arith in let zb : b ≡ 0 = omega arith in rw (za, zb) refl
bit_xor_twice (suc n) a b ha hb =
    let ih =
      bit_xor_twice n (a / 2) (b / 2) (omega (arith, pow-suc 2 n)) (omega (arith, pow-suc 2 n)) in
    let d = differ_bits (a % 2) (b % 2) (omega arith) (omega arith) in
    let low : bit_xor a b % 2 ≡ differ (a % 2) (b % 2) = omega (arith, bit_xor_digit a b, d.1) in
    let high : bit_xor a b / 2 ≡ bit_xor (a / 2) (b / 2) = omega (arith, bit_xor_digit a b, d.1) in
    let front : differ (bit_xor a b % 2) (b % 2) ≡ a % 2 =
      rw low (differ_twice (a % 2) (b % 2) (omega arith) (omega arith)) in
    let rest : bit_xor (bit_xor a b / 2) (b / 2) ≡ a / 2 = rw high ih in
    omega (arith, bit_xor_digit (bit_xor a b) b, front, rest)

pub bit_xor-lt : (n a b : ℕ) → a < 2 ^ n → b < 2 ^ n → bit_xor a b < 2 ^ n
bit_xor-lt n a b ha hb = (bit_xor_below n a b ha hb).0
