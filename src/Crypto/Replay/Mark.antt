-- ===== src/Crypto/Replay/Mark.antt =====
-- Marking a nonce in the bitmap of the replay window, and testing its mark.
use native.Mathlib.Decide.{ℕ_discrete}
use native.Mathlib.Nat.{pow-le-pow_right}
use ceky_p2p.Common.{
  ℕ, ◌*◌, ◌/◌, ◌%◌, ◌^◌, ◌<◌, ◌≡◌, ◌∙◌, arith, bit_and, bit_or, List, ◌==◌, eq→==, ne→==,
  if◌then◌else◌, length, get_or, All, length-set, get_or-set_self, get_or-set_ne, All-set,
  All-get_or,
}
use ceky_p2p.Common.Bits.{
  bit-lt, bit-bit_or, bit_or-lt, bit-pow_self, bit-pow_other, bit_and-pow, pow-pos,
}
use ceky_p2p.Crypto.Replay.{set_bit}
use ceky_p2p.Crypto.Replay.Shift.{IsWord, seen}

pub length-set_bit : (ws : List ℕ) (i b : ℕ) → length (set_bit ws i b) ≡ length ws
unfolding set_bit
length-set_bit ws i b = length-set ws i _

pub set_bit-IsWord : (ws : List ℕ) (i b : ℕ) → b < 64 → All IsWord ws → All IsWord (set_bit ws i b)
unfolding set_bit
set_bit-IsWord ws i b hb h = All-set IsWord ws i _ h (
    bit_or-lt 64 (get_or ws i 0) (2 ^ b) (All-get_or IsWord ws i 0 h (omega arith))
      (omega (arith, pow-le-pow_right {n = 2} (omega arith) {i = b} {j = 63} (omega arith))))

pub seen-lt : (ws : List ℕ) (p : ℕ) → seen ws p < 2
unfolding seen
seen-lt ws p = bit-lt (get_or ws (p / 64) 0) (p % 64)

-- The mark of position d is set, and no other mark changes.
pub seen-set_bit :
    (ws : List ℕ) (d p : ℕ)
    → d < 64 * length ws
    → seen (set_bit ws (d / 64) (d % 64)) p ≡ (if p == d then 1 else seen ws p)
unfolding seen set_bit
seen-set_bit ws d p h = elim (ℕ_discrete (p / 64) (d / 64)) [
  | yes word ↦
      rw
        (
          word,
          get_or-set_self ws (d / 64) (bit_or (get_or ws (d / 64) 0) (2 ^ (d % 64))) 0
              (omega arith),
        )
        (bit-bit_or (get_or ws (d / 64) 0) (2 ^ (d % 64)) (p % 64)
          ∙ elim (ℕ_discrete (p % 64) (d % 64)) [
            | yes offset ↦
                rw (offset, bit-pow_self (d % 64), eq→== p d (omega arith))
                  (omega (arith, bit-lt (get_or ws (d / 64) 0) (d % 64)))
            | no offset ↦
                rw
                  (bit-pow_other (d % 64) (p % 64) (λ e. omega arith), ne→== p d (λ e. omega arith))
                  (omega arith)
          ])
  | no word ↦
      rw (get_or-set_ne ws (d / 64) (p / 64) _ 0 (λ e. omega arith), ne→== p d (λ e. omega arith))
]

-- The test `bitmap[d / 64] & (1 << d % 64) != 0` reads the mark of position d.
pub unmarked-seen :
    (ws : List ℕ) (d : ℕ) → (bit_and (get_or ws (d / 64) 0) (2 ^ (d % 64)) == 0) ≡ (seen ws d == 0)
unfolding seen
unmarked-seen ws d =
    let w : ℕ = get_or ws (d / 64) 0 in
    let b : ℕ = d % 64 in grind (arith, bit_and-pow w b, bit-lt w b, pow-pos b)
