-- ===== src/Protocol/Transfer/Bitmap.antt =====
-- The bitmaps of missing chunks and the number of chunks, crates/ceky-protocol/src/transfer.rs.
use ceky_p2p.Common.{
  ℕ, zero, suc, ◌+◌, ◌-◌, ◌*◌, ◌/◌, ◌%◌, ◌^◌, ◌≤◌, ◌<◌, ◌≡◌, ◌≢◌, refl, sym, ◌∙◌, ap, arith,
  bit_and, bit_or, Bool, true, false, not, List, leb, ◌==◌, ne→==, gt→leb, if◌then◌else◌, length,
  length-set, get_or, set, get_or-set_self, get_or-set_ne,
}
use native.Mathlib.Decide.{ℕ_discrete}
use native.Mathlib.Nat.{pow-suc, div-add-mod, mod-lt, div-lt_iff_lt-mul}
use ceky_p2p.Common.Bits.{
  bit, bit-lt, bit-bit_or, bit-bit_and, bit_and-pow, bit-pow_self, bit-pow_other, pow-pos,
}
use ceky_p2p.Protocol.Transfer.{compute_total_chunks}

abbrev pub bitmap_len : ℕ → ℕ
bitmap_len chunk_count = (chunk_count + 7) / 8

unfoldable pub bitmap_is_missing : List ℕ → ℕ → Bool
bitmap_is_missing bitmap chunk_index =
    if leb (length bitmap) (chunk_index / 8)
    then false
    else not (bit_and (get_or bitmap (chunk_index / 8) 0) (2 ^ (chunk_index % 8)) == 0)

-- `!mask` of a byte is 255 - mask.
abbrev pub marked : ℕ → ℕ → Bool → ℕ
marked byte mask true = bit_or byte mask
marked byte mask false = bit_and byte (255 - mask)

unfoldable pub bitmap_set_missing : List ℕ → ℕ → Bool → List ℕ
bitmap_set_missing bitmap chunk_index missing =
    if leb (length bitmap) (chunk_index / 8)
    then bitmap
    else set bitmap (chunk_index / 8)
        (marked (get_or bitmap (chunk_index / 8) 0) (2 ^ (chunk_index % 8)) missing)

same_test : (k j : ℕ) → ◌≡◌ {A = ℕ} (if k == j then 0 else 1) (if suc k == suc j then 0 else 1)
same_test k j = ground arith

below : (n k : ℕ) → k < n → 2 * 2 ^ k ≤ 2 ^ n
below zero k h = absurd (omega arith)
below (suc n) zero h = omega (arith, pow-suc 2 n, pow-pos n)
below (suc n) (suc k) h = omega (arith, pow-suc 2 n, pow-suc 2 k, below n k (omega arith))

bit-ones : (n j : ℕ) → j < n → bit (2 ^ n - 1) j ≡ 1
unfolding bit
bit-ones zero j h = absurd (omega arith)
bit-ones (suc n) zero h = omega (arith, pow-suc 2 n, pow-pos n)
bit-ones (suc n) (suc j) h =
    let half : (2 ^ suc n - 1) / 2 ≡ 2 ^ n - 1 = omega (arith, pow-suc 2 n, pow-pos n) in
    rw half (bit-ones n j (omega arith))

-- The bits of a word of n ones but for the one at k.
bit-but_one : (n k j : ℕ) → k < n → j < n → bit (2 ^ n - 1 - 2 ^ k) j ≡ (if k == j then 0 else 1)
unfolding bit
bit-but_one zero k j hk hj = absurd (omega arith)
bit-but_one (suc n) zero zero hk hj = omega (arith, pow-suc 2 n, pow-pos n)
bit-but_one (suc n) zero (suc j) hk hj =
    let half : (2 ^ suc n - 1 - 2 ^ 0) / 2 ≡ 2 ^ n - 1 = omega (arith, pow-suc 2 n, pow-pos n) in
    rw half (bit-ones n j (omega arith) ∙ ground arith)
bit-but_one (suc n) (suc k) zero hk hj =
    grind (arith, pow-suc 2 n, pow-suc 2 k, pow-pos n, below n k (omega arith))
bit-but_one (suc n) (suc k) (suc j) hk hj =
    let half : (2 ^ suc n - 1 - 2 ^ suc k) / 2 ≡ 2 ^ n - 1 - 2 ^ k =
      omega (arith, pow-suc 2 n, pow-suc 2 k, pow-pos n, below n k (omega arith)) in
    rw half (bit-but_one n k j (omega arith) (omega arith) ∙ same_test k j)

mask-reads : (w k : ℕ) → not (bit_and w (2 ^ k) == 0) ≡ not (bit w k == 0)
mask-reads w k = grind (arith, bit_and-pow w k, bit-lt w k, pow-pos k)

marked-bit :
    (w k j : ℕ) (missing : Bool)
    → k < 8
    → j < 8
    → not (bit (marked w (2 ^ k) missing) j == 0) ≡ (if k == j then missing else not (bit w j == 0))
marked-bit w k j true hk hj = elim (ℕ_discrete k j) [
  | yes e ↦ rw (← e) (ground (arith, bit-bit_or w (2 ^ k) k, bit-pow_self k, bit-lt w k))
  | no ne ↦ rw (ne→== k j ne) (ground (arith, bit-bit_or w (2 ^ k) j, bit-pow_other k j ne))
]
marked-bit w k j false hk hj = elim (ℕ_discrete k j) [
  | yes e ↦ rw (← e) (ground (arith, bit-bit_and w (255 - 2 ^ k) k, bit-but_one 8 k k hk hk))
  | no ne ↦
      rw (ne→== k j ne)
        (ground (arith, bit-bit_and w (255 - 2 ^ k) j, bit-but_one 8 k j hk hj, bit-lt w j))
]

-- Marking a chunk within the bitmap sets its own bit to what is said and leaves the length and all others as they were.
pub bitmap_is_missing-bitmap_set_missing :
    (bitmap : List ℕ) (i j : ℕ) (missing : Bool)
    → i < 8 * length bitmap
    → j < 8 * length bitmap
    → (bitmap_is_missing (bitmap_set_missing bitmap i missing) j
        ≡ (if i == j then missing else bitmap_is_missing bitmap j))
      × (length (bitmap_set_missing bitmap i missing) ≡ length bitmap)
unfolding bitmap_is_missing bitmap_set_missing
bitmap_is_missing-bitmap_set_missing bitmap i j missing hi hj =
    let k = i % 8 in
    let v = marked (get_or bitmap (i / 8) 0) (2 ^ k) missing in
    let in_i = gt→leb (length bitmap) (i / 8) (omega arith) in
    let in_j = gt→leb (length bitmap) (j / 8) (omega arith) in
    let after = set bitmap (i / 8) v in
    let in_after : leb (length after) (j / 8) ≡ false = rw (length-set bitmap (i / 8) v) in_j in
    (
      elim (ℕ_discrete (i / 8) (j / 8)) [
        | no apart ↦
            rw
              (
                in_i,
                in_after,
                in_j,
                get_or-set_ne bitmap (i / 8) (j / 8) v 0 apart,
                ne→== i j (λ e. apart (ap (λ (n : ℕ). n / 8) e)),
              )
              refl
        | yes same ↦
            let byte : get_or after (j / 8) 0 ≡ v =
              ap (λ (n : ℕ). get_or after n 0) (sym same)
              ∙ get_or-set_self bitmap (i / 8) v 0 (omega arith) in
            let old : get_or bitmap (i / 8) 0 ≡ get_or bitmap (j / 8) 0 =
              ap (λ (n : ℕ). get_or bitmap n 0) same in
            let place : (i == j) ≡ (k == j % 8) = ground (arith, same) in
            rw
              (
                in_i,
                in_after,
                in_j,
                byte,
                mask-reads v (j % 8),
                mask-reads (get_or bitmap (j / 8) 0) (j % 8),
                place,
              )
              (marked-bit (get_or bitmap (i / 8) 0) k (j % 8) missing (omega arith) (omega arith)
                ∙ rw old refl)
      ],
      rw in_i (length-set bitmap (i / 8) v),
    )

covers_all : (c q f : ℕ) → c * q < f → c * (q + 1 - 1) < f
covers_all c q f h = let same : q + 1 - 1 ≡ q = omega arith in rw same h

-- The number of chunks covers the file and no chunk is idle, as long as it fits 32 bits.
pub compute_total_chunks-bounds :
    (file_size chunk_size : ℕ)
    → 0 < file_size
    → 0 < chunk_size
    → file_size ≤ chunk_size * (2 ^ 32 - 1)
    → (file_size ≤ chunk_size * compute_total_chunks file_size chunk_size)
      × (chunk_size * (compute_total_chunks file_size chunk_size - 1) < file_size)
unfolding compute_total_chunks
compute_total_chunks-bounds file_size chunk_size hf hc h =
    let q = (file_size - 1) / chunk_size in
    let whole : file_size - 1 ≡ chunk_size * q + (file_size - 1) % chunk_size =
      sym (div-add-mod (file_size - 1) chunk_size) in
    let part : (file_size - 1) % chunk_size < chunk_size = mod-lt (file_size - 1) hc in
    let small : q < 2 ^ 32 - 1 = (div-lt_iff_lt-mul hc).1 (omega arith) in
    let nz_f : file_size ≢ 0 = λ e. omega arith in
    let nz_c : chunk_size ≢ 0 = λ e. omega arith in
    let total : compute_total_chunks file_size chunk_size ≡ q + 1 =
      rw (compute_total_chunks, ne→== file_size 0 nz_f, ne→== chunk_size 0 nz_c)
        (omega (arith, small)) in
    rw total
      (grind (arith, whole, part), covers_all chunk_size q file_size (omega (arith, whole, hf)))
