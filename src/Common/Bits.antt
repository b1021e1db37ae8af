-- ===== src/Common/Bits.antt =====
-- Single bits of a word, and what `|`, `&`, `<<` and `>>` do to each, at every width.
use Prim.Native.Nat.{
  ℕ, zero, suc, ◌+◌, ◌-◌, ◌*◌, ◌/◌, ◌%◌, ◌^◌, ◌≤◌, ◌<◌, min, max, bit_and, bit_or, digits, bitwise,
  bit_and-bitwise, bit_or-bitwise,
}
use mathlib.Core.Path.{◌≡◌, refl, ap, sym, ◌∙◌}
use mathlib.Core.Logic.{◌≢◌}
use native.Mathlib.Omega.{arith}
use native.Mathlib.Nat.{pow-suc, one-le-pow, div-div-eq-div-mul, div-le_self}
use ceky_p2p.Common.Bytes.{mod-mul}

-- Bit k of w, as 0 or 1.
unfoldable pub bit : ℕ → ℕ → ℕ
bit w zero = w % 2
bit w (suc k) = bit (w / 2) k

-- `bitwise` spends one unit of fuel on each digit. What is left over makes no difference.
module _ (rest : ℕ → ℕ) (op : ℕ → ℕ → ℕ) where
  spare_one : (fuel x y : ℕ) → x ≤ fuel → digits rest op (suc fuel) x y ≡ digits rest op fuel x y
  spare_one zero zero y h = refl
  spare_one (suc fuel) zero y h = refl
  spare_one zero (suc x) y h = elim h [ ]
  spare_one (suc fuel) (suc x) y h = rw (spare_one fuel (suc x / 2) (y / 2) (omega arith))

  spare :
      (more fuel x y : ℕ) → x ≤ fuel → digits rest op (fuel + more) x y ≡ digits rest op fuel x y
  spare zero fuel x y h =
      let same : fuel + 0 ≡ fuel = omega arith in ap (λ (n : ℕ). digits rest op n x y) same
  spare (suc more) fuel x y h =
      let one : fuel + suc more ≡ suc (fuel + more) = omega arith in
      ap (λ (n : ℕ). digits rest op n x y) one
      ∙ spare_one (fuel + more) x y (omega arith)
      ∙ spare more fuel x y h

  -- The digits above the lowest one, with no more fuel than they want.
  upper_digits : (x y : ℕ) → digits rest op x (suc x / 2) y ≡ bitwise rest op (suc x / 2) y
  upper_digits x y =
      let half : x ≡ suc x / 2 + (x - suc x / 2) = omega arith in
      ap (λ (n : ℕ). digits rest op n (suc x / 2) y) half
      ∙ spare (x - suc x / 2) (suc x / 2) (suc x / 2) y (omega arith)

  pub lowest_digit :
      (x y : ℕ)
      → 0 < x
      → bitwise rest op x y ≡ op (x % 2) (y % 2) + 2 * bitwise rest op (x / 2) (y / 2)
  lowest_digit zero y h = elim h [ ]
  lowest_digit (suc x) y h = omega (arith, upper_digits x (y / 2))

-- A bit operation digit by digit; the equation also holds of no digits at all.
pub bit_or_digit : (x y : ℕ) → bit_or x y ≡ max (x % 2) (y % 2) + 2 * bit_or (x / 2) (y / 2)
bit_or_digit zero y = simp bit_or-bitwise (omega arith)
bit_or_digit (suc x) y = simp bit_or-bitwise (lowest_digit (λ d. d) max (suc x) y (omega arith))

pub bit_and_digit : (x y : ℕ) → bit_and x y ≡ min (x % 2) (y % 2) + 2 * bit_and (x / 2) (y / 2)
bit_and_digit zero y = simp bit_and-bitwise (omega arith)
bit_and_digit (suc x) y = simp bit_and-bitwise (lowest_digit (λ d. 0) min (suc x) y (omega arith))

pub bit-lt : (w k : ℕ) → bit w k < 2
unfolding bit
bit-lt w zero = omega arith
bit-lt w (suc k) = bit-lt (w / 2) k

pub bit-zero : (k : ℕ) → bit 0 k ≡ 0
unfolding bit
bit-zero zero = refl
bit-zero (suc k) = bit-zero k

pub bit-bit_or : (a b k : ℕ) → bit (bit_or a b) k ≡ max (bit a k) (bit b k)
unfolding bit
bit-bit_or a b zero = omega (arith, bit_or_digit a b)
bit-bit_or a b (suc k) =
    let half : bit_or a b / 2 ≡ bit_or (a / 2) (b / 2) = omega (arith, bit_or_digit a b) in
    rw half (bit-bit_or (a / 2) (b / 2) k)

pub bit-bit_and : (a b k : ℕ) → bit (bit_and a b) k ≡ min (bit a k) (bit b k)
unfolding bit
bit-bit_and a b zero = omega (arith, bit_and_digit a b)
bit-bit_and a b (suc k) =
    let half : bit_and a b / 2 ≡ bit_and (a / 2) (b / 2) = omega (arith, bit_and_digit a b) in
    rw half (bit-bit_and (a / 2) (b / 2) k)

two-pow-suc : (k : ℕ) → 2 ^ suc k ≡ 2 * 2 ^ k
two-pow-suc k = omega (arith, pow-suc 2 k)

-- `w << s` before the cut to the word.
pub bit-shl_lt : (w s k : ℕ) → k < s → bit (w * 2 ^ s) k ≡ 0
unfolding bit
bit-shl_lt w zero k h = elim h [ ]
bit-shl_lt w (suc s) zero h = omega (arith, ap (λ (t : ℕ). w * t) (two-pow-suc s))
bit-shl_lt w (suc s) (suc k) h =
    let half : w * 2 ^ suc s / 2 ≡ w * 2 ^ s =
      omega (arith, ap (λ (t : ℕ). w * t) (two-pow-suc s)) in
    rw half (bit-shl_lt w s k (omega arith))

pub bit-shl_ge : (w s k : ℕ) → bit (w * 2 ^ s) (s + k) ≡ bit w k
unfolding bit
bit-shl_ge w zero k = rw (zero_left k, one_right w)
  where
    zero_left : (k : ℕ) → 0 + k ≡ k
    zero_left k = omega arith

    one_right : (w : ℕ) → w * 2 ^ 0 ≡ w
    one_right w = omega arith
bit-shl_ge w (suc s) k =
    let half : w * 2 ^ suc s / 2 ≡ w * 2 ^ s =
      omega (arith, ap (λ (t : ℕ). w * t) (two-pow-suc s)) in
    let next : suc s + k ≡ suc (s + k) = omega arith in
    ap (bit (w * 2 ^ suc s)) next ∙ ap (λ (t : ℕ). bit t (s + k)) half ∙ bit-shl_ge w s k

-- The cut to n bits keeps the bits below n and clears the others.
pub bit-mod : (w n k : ℕ) → k < n → bit (w % 2 ^ n) k ≡ bit w k
unfolding bit
bit-mod w zero k h = elim h [ ]
bit-mod w (suc n) k h = go (bit-mod (w / 2) n) k h
  where
    parts : w % 2 ^ suc n ≡ w / 2 % 2 ^ n * 2 + w % 2
    parts =
        ap (λ (t : ℕ). w % t) (two-pow-suc n)
        ∙ mod-mul 2 (2 ^ n) w (omega arith) (one-le-pow n 2 (omega arith))

    half : w % 2 ^ suc n / 2 ≡ w / 2 % 2 ^ n
    half = omega (arith, parts)

    go :
        ((j : ℕ) → j < n → bit (w / 2 % 2 ^ n) j ≡ bit (w / 2) j)
        → (k : ℕ) → k < suc n
        → bit (w % 2 ^ suc n) k ≡ bit w k
    go ih zero h = omega (arith, parts)
    go ih (suc k) h = rw half (ih k (omega arith))

pub bit-shr : (w s k : ℕ) → bit (w / 2 ^ s) k ≡ bit w (s + k)
unfolding bit
bit-shr w zero k = rw (zero_left k, one_right w)
  where
    zero_left : (k : ℕ) → 0 + k ≡ k
    zero_left k = omega arith

    one_right : (w : ℕ) → w / 2 ^ 0 ≡ w
    one_right w = omega arith
bit-shr w (suc s) k =
    let next : suc s + k ≡ suc (s + k) = omega arith in
    let half : w / 2 ^ suc s ≡ w / 2 / 2 ^ s =
      ap (λ (t : ℕ). w / t) (two-pow-suc s) ∙ sym (div-div-eq-div-mul w 2 (2 ^ s)) in
    ap (λ (t : ℕ). bit t k) half ∙ bit-shr (w / 2) s k ∙ ap (bit w) (sym next)

pub bit-pow_self : (k : ℕ) → bit (2 ^ k) k ≡ 1
unfolding bit
bit-pow_self zero = refl
bit-pow_self (suc k) =
    let half : 2 ^ suc k / 2 ≡ 2 ^ k = omega (arith, two-pow-suc k) in rw half (bit-pow_self k)

none_in_common : (n w : ℕ) → w ≤ n → bit_and w 0 ≡ 0
none_in_common n zero h = refl
none_in_common zero (suc w) h = elim h [ ]
none_in_common (suc n) (suc w) h =
    omega (arith, bit_and_digit (suc w) 0, none_in_common n (suc w / 2) (omega arith))

pub bit-pow_other : (k j : ℕ) → k ≢ j → bit (2 ^ k) j ≡ 0
unfolding bit
bit-pow_other zero zero h = absurd (h refl)
bit-pow_other zero (suc j) h = bit-zero j
bit-pow_other (suc k) zero h = omega (arith, two-pow-suc k)
bit-pow_other (suc k) (suc j) h =
    let half : 2 ^ suc k / 2 ≡ 2 ^ k = omega (arith, two-pow-suc k) in
    rw half (bit-pow_other k j (λ e. h (ap suc e)))

-- A word with a single bit set is zero outside it, so the test `w & (1 << k) != 0` reads bit k.
pub bit_and-pow : (w k : ℕ) → bit_and w (2 ^ k) ≡ bit w k * 2 ^ k
unfolding bit
bit_and-pow w zero = omega (arith, bit_and_digit w 1, none_in_common (w / 2) (w / 2) (omega arith))
bit_and-pow w (suc k) =
    let half : 2 ^ suc k / 2 ≡ 2 ^ k = omega (arith, two-pow-suc k) in
    omega (
      arith,
      bit_and_digit w (2 ^ suc k),
      two-pow-suc k,
      ap (bit_and (w / 2)) half,
      bit_and-pow (w / 2) k,
      ap (λ (t : ℕ). bit (w / 2) k * t) (two-pow-suc k),
    )

pub pow-pos : (k : ℕ) → 0 < 2 ^ k
pow-pos k = one-le-pow k 2 (omega arith)

pub bit-ge : (w n k : ℕ) → w < 2 ^ n → n ≤ k → bit w k ≡ 0
unfolding bit
bit-ge w zero k h hk = rw small (bit-zero k)
  where
    small : w ≡ 0
    small = omega arith
bit-ge w (suc n) zero h hk = absurd (omega arith)
bit-ge w (suc n) (suc k) h hk = bit-ge (w / 2) n k (omega (arith, two-pow-suc n)) (omega arith)

pub bit_or-lt : (n a b : ℕ) → a < 2 ^ n → b < 2 ^ n → bit_or a b < 2 ^ n
bit_or-lt zero a b ha hb = rw (none_set a (omega arith), none_set b (omega arith)) (omega arith)
  where
    none_set : (x : ℕ) → x < 1 → x ≡ 0
    none_set x h = omega arith
bit_or-lt (suc n) a b ha hb = omega (
  arith,
  bit_or_digit a b,
  two-pow-suc n,
  bit_or-lt n (a / 2) (b / 2) (omega (arith, two-pow-suc n)) (omega (arith, two-pow-suc n)),
)

pub shr-le : (w s : ℕ) → w / 2 ^ s ≤ w
shr-le w s = div-le_self w (2 ^ s)
