-- ===== src/Crypto/Replay/Shift.antt =====
-- `ReplayWindow::shift_left`: bit p of the result is bit p - amount of the bitmap.
use ceky_p2p.Common.{
  ℕ, zero, suc, ◌+◌, ◌-◌, ◌*◌, ◌/◌, ◌%◌, ◌^◌, ◌≤◌, ◌<◌, ◌≡◌, refl, arith, bit_or, max, true, false,
  List, ltb, leb, if◌then◌else◌, length, get_or, set, All, ◌∙◌, ap, sym,
}
use ceky_p2p.Common.Bits.{
  bit, bit-zero, bit-bit_or, bit-shl_lt, bit-shl_ge, bit-mod, bit-shr, bit-ge, bit_or-lt, shr-le,
}
use native.Mathlib.Decide.{dec_lt}
use ceky_p2p.Common.{
  lt→ltb, ge→ltb, le→leb, gt→leb, length-set, get_or-set_self, get_or-set_ne, All-set, All-get_or,
}
use ceky_p2p.Crypto.Replay.{shl, shr, shift_words, shift_bits, shift_left}

abbrev pub IsWord : ℕ → Type 0
IsWord w = w < 2 ^ 64

-- Bit p of the bitmap, counted through its words.
unfoldable pub seen : List ℕ → ℕ → ℕ
seen bitmap p = bit (get_or bitmap (p / 64) 0) (p % 64)

-- Word i after `shift_words`, and after `shift_bits`.
abbrev moved_word : ℕ → List ℕ → ℕ → ℕ
moved_word k ws i = if leb k i then get_or ws (i - k) 0 else 0

abbrev carried_word : ℕ → List ℕ → ℕ → ℕ
carried_word amount ws i =
    if ltb 0 i
    then bit_or (shl (get_or ws i 0) amount) (shr (get_or ws (i - 1) 0) (64 - amount))
    else shl (get_or ws i 0) amount

shift_words-above :
    (k n : ℕ) (ws : List ℕ) (i : ℕ) → n ≤ i → get_or (shift_words k n ws) i 0 ≡ get_or ws i 0
unfolding shift_words
shift_words-above k zero ws i h = refl
shift_words-above k (suc n) ws i h =
    shift_words-above k n (set ws n (moved_word k ws n)) i (omega arith)
    ∙ get_or-set_ne ws n i (moved_word k ws n) 0 (omega arith)

shift_words-below :
    (k n : ℕ) (ws : List ℕ) (i : ℕ)
    → n ≤ length ws
    → i < n
    → get_or (shift_words k n ws) i 0 ≡ moved_word k ws i
unfolding shift_words
shift_words-below k zero ws i hn h = elim h [ ]
shift_words-below k (suc n) ws i hn h = elim (dec_lt i n) [
  | yes p ↦
      shift_words-below k n ws' i (omega (arith, length-set ws n v)) p
      ∙ ground (arith, get_or-set_ne ws n (i - k) v 0)
  | no p ↦
      let e : i ≡ n = omega arith in
      rw e (shift_words-above k n ws' n (omega arith) ∙ get_or-set_self ws n v 0 (omega arith))
]
  where
    v : ℕ
    v = moved_word k ws n

    ws' : List ℕ
    ws' = set ws n v

shift_bits-above :
    (s n : ℕ) (ws : List ℕ) (i : ℕ) → n ≤ i → get_or (shift_bits s n ws) i 0 ≡ get_or ws i 0
unfolding shift_bits
shift_bits-above s zero ws i h = refl
shift_bits-above s (suc n) ws i h =
    shift_bits-above s n (set ws n (carried_word s ws n)) i (omega arith)
    ∙ get_or-set_ne ws n i (carried_word s ws n) 0 (omega arith)

shift_bits-below :
    (s n : ℕ) (ws : List ℕ) (i : ℕ)
    → n ≤ length ws
    → i < n
    → get_or (shift_bits s n ws) i 0 ≡ carried_word s ws i
unfolding shift_bits
shift_bits-below s zero ws i hn h = elim h [ ]
shift_bits-below s (suc n) ws i hn h = elim (dec_lt i n) [
  | yes p ↦
      shift_bits-below s n ws' i (omega (arith, length-set ws n v)) p
      ∙ ground (arith, get_or-set_ne ws n i v 0, get_or-set_ne ws n (i - 1) v 0)
  | no p ↦
      let e : i ≡ n = omega arith in
      rw e (shift_bits-above s n ws' n (omega arith) ∙ get_or-set_self ws n v 0 (omega arith))
]
  where
    v : ℕ
    v = carried_word s ws n

    ws' : List ℕ
    ws' = set ws n v

pub length-shift_words : (k n : ℕ) (ws : List ℕ) → length (shift_words k n ws) ≡ length ws
unfolding shift_words
length-shift_words k zero ws = refl
length-shift_words k (suc n) ws =
    length-shift_words k n (set ws n (moved_word k ws n)) ∙ length-set ws n (moved_word k ws n)

pub length-shift_bits : (s n : ℕ) (ws : List ℕ) → length (shift_bits s n ws) ≡ length ws
unfolding shift_bits
length-shift_bits s zero ws = refl
length-shift_bits s (suc n) ws =
    length-shift_bits s n (set ws n (carried_word s ws n)) ∙ length-set ws n (carried_word s ws n)

shift_words-IsWord : (k n : ℕ) (ws : List ℕ) → All IsWord ws → All IsWord (shift_words k n ws)
unfolding shift_words
shift_words-IsWord k zero ws h = h
shift_words-IsWord k (suc n) ws h =
    shift_words-IsWord k n _ (All-set IsWord ws n (moved_word k ws n) h fits)
  where
    fits : IsWord (moved_word k ws n)
    fits = ground (arith, All-get_or IsWord ws (n - k) 0 h (omega arith))

shift_bits-IsWord : (s n : ℕ) (ws : List ℕ) → All IsWord ws → All IsWord (shift_bits s n ws)
unfolding shift_bits
shift_bits-IsWord s zero ws h = h
shift_bits-IsWord s (suc n) ws h =
    shift_bits-IsWord s n _ (All-set IsWord ws n (carried_word s ws n) h fits)
  where
    low : IsWord (shr (get_or ws (n - 1) 0) (64 - s))
    low = omega (
      arith,
      All-get_or IsWord ws (n - 1) 0 h (omega arith),
      shr-le (get_or ws (n - 1) 0) (64 - s),
    )

    fits : IsWord (carried_word s ws n)
    fits = ground (
      arith,
      bit_or-lt 64 (shl (get_or ws n 0) s) (shr (get_or ws (n - 1) 0) (64 - s)) (omega arith) low,
    )

seen-shift_words :
    (k : ℕ) (ws : List ℕ) (p : ℕ)
    → p < 64 * length ws
    → seen (shift_words k (length ws) ws) p ≡ (if ltb p (64 * k) then 0 else seen ws (p - 64 * k))
unfolding seen
seen-shift_words k ws p h =
    rw (shift_words-below k (length ws) ws (p / 64) (omega arith) (omega arith))
      (elim (dec_lt p (64 * k)) [
        | yes q ↦ rw (lt→ltb p (64 * k) q, gt→leb k (p / 64) (omega arith)) (bit-zero (p % 64))
        | no q ↦
            let word : (p - 64 * k) / 64 ≡ p / 64 - k = omega arith in
            let offset : (p - 64 * k) % 64 ≡ p % 64 = omega arith in
            rw (ge→ltb p (64 * k) (omega arith), le→leb k (p / 64) (omega arith), word, offset)
      ])

shl_high : (w s k : ℕ) → s ≤ k → bit (w * 2 ^ s) k ≡ bit w (k - s)
shl_high w s k h =
    let at : s + (k - s) ≡ k = omega arith in ap (bit (w * 2 ^ s)) (sym at) ∙ bit-shl_ge w s (k - s)

-- One bit of a word that takes the low part of the word below it.
carried-bit :
    (s k hi lo : ℕ)
    → 0 < s
    → s < 64
    → k < 64
    → IsWord lo
    → bit (bit_or (shl hi s) (shr lo (64 - s))) k
      ≡ (if ltb k s then bit lo (64 + k - s) else bit hi (k - s))
carried-bit s k hi lo hs hs' hk fits =
    bit-bit_or (shl hi s) (shr lo (64 - s)) k
    ∙ ap (λ (t : ℕ). max t (bit (shr lo (64 - s)) k)) (bit-mod (hi * 2 ^ s) 64 k hk)
    ∙ ap (λ (t : ℕ). max (bit (hi * 2 ^ s) k) t) (bit-shr lo (64 - s) k)
    ∙ elim (dec_lt k s) [
      | yes q ↦
          let at : 64 - s + k ≡ 64 + k - s = omega arith in
          rw (bit-shl_lt hi s k q, lt→ltb k s q, at) (omega arith)
      | no q ↦
          rw (ge→ltb k s (omega arith), bit-ge lo 64 (64 - s + k) fits (omega arith))
            (omega (arith, shl_high hi s k (omega arith)))
    ]

-- The first word takes nothing from below.
first-bit : (s k w : ℕ) → k < 64 → bit (shl w s) k ≡ (if ltb k s then 0 else bit w (k - s))
first-bit s k w hk = bit-mod (w * 2 ^ s) 64 k hk ∙ elim (dec_lt k s) [
  | yes q ↦ rw (bit-shl_lt w s k q, lt→ltb k s q)
  | no q ↦ rw (ge→ltb k s (omega arith), shl_high w s k (omega arith))
]

carried-seen :
    (s : ℕ) (ws : List ℕ) (p : ℕ)
    → 0 < s
    → s < 64
    → All IsWord ws
    → bit (carried_word s ws (p / 64)) (p % 64) ≡ (if ltb p s then 0 else seen ws (p - s))
unfolding seen
carried-seen s ws p hs hs' fits = elim (dec_lt p 64) [
  | yes q ↦
      let first : p / 64 ≡ 0 = omega arith in
      let offset : p % 64 ≡ p = omega arith in
      let word : (p - s) / 64 ≡ 0 = omega arith in
      let offset' : (p - s) % 64 ≡ p - s = omega arith in
      rw (first, offset, word, offset') (first-bit s p (get_or ws 0 0) q)
  | no q ↦
      let later : ltb 0 (p / 64) ≡ true = lt→ltb 0 (p / 64) (omega arith) in
      let far : ltb p s ≡ false = ge→ltb p s (omega arith) in
      let step =
        carried-bit s (p % 64) (get_or ws (p / 64) 0) (get_or ws (p / 64 - 1) 0) hs hs'
          (omega arith) (All-get_or IsWord ws (p / 64 - 1) 0 fits (omega arith)) in
      rw (later, far) (step ∙ borrow s ws p q hs')
]
  where
    borrow :
        (s : ℕ) (ws : List ℕ) (p : ℕ)
        → ¬ (p < 64)
        → s < 64
        → (if ltb (p % 64) s
            then bit (get_or ws (p / 64 - 1) 0) (64 + p % 64 - s)
            else bit (get_or ws (p / 64) 0) (p % 64 - s))
          ≡ bit (get_or ws ((p - s) / 64) 0) ((p - s) % 64)
    borrow s ws p q hs' = elim (dec_lt (p % 64) s) [
      | yes r ↦
          let word : (p - s) / 64 ≡ p / 64 - 1 = omega arith in
          let offset : (p - s) % 64 ≡ 64 + p % 64 - s = omega arith in
          rw (lt→ltb (p % 64) s r, word, offset)
      | no r ↦
          let word : (p - s) / 64 ≡ p / 64 = omega arith in
          let offset : (p - s) % 64 ≡ p % 64 - s = omega arith in
          rw (ge→ltb (p % 64) s (omega arith), word, offset)
    ]

seen-shift_bits :
    (s : ℕ) (ws : List ℕ) (p : ℕ)
    → 0 < s
    → s < 64
    → All IsWord ws
    → p < 64 * length ws
    → seen (shift_bits s (length ws) ws) p ≡ (if ltb p s then 0 else seen ws (p - s))
unfolding seen
seen-shift_bits s ws p hs hs' fits h =
    ap (λ (t : ℕ). bit t (p % 64))
      (shift_bits-below s (length ws) ws (p / 64) (omega arith) (omega arith))
    ∙ carried-seen s ws p hs hs' fits

pub length-shift_left : (ws : List ℕ) (amount : ℕ) → length (shift_left ws amount) ≡ length ws
unfolding shift_left
length-shift_left ws amount =
    let moved = shift_words (amount / 64) (length ws) ws in
    ground (
      arith,
      length-shift_words (amount / 64) (length ws) ws,
      length-shift_bits (amount % 64) (length moved) moved,
      length-shift_bits amount (length ws) ws,
    )

pub shift_left-IsWord :
    (ws : List ℕ) (amount : ℕ) → All IsWord ws → All IsWord (shift_left ws amount)
unfolding shift_left
shift_left-IsWord ws amount h =
    let moved = shift_words (amount / 64) (length ws) ws in
    let moved-IsWord = shift_words-IsWord (amount / 64) (length ws) ws h in
    ground (
      arith,
      shift_bits-IsWord (amount % 64) (length moved) moved moved-IsWord,
      shift_bits-IsWord amount (length ws) ws h,
    )

-- For a bitmap of words, bit p of the shifted bitmap is bit p - amount of the old one, and the bits
-- below the amount are clear.
pub seen-shift_left :
    (ws : List ℕ) (amount p : ℕ)
    → All IsWord ws
    → p < 64 * length ws
    → seen (shift_left ws amount) p ≡ (if ltb p amount then 0 else seen ws (p - amount))
unfolding shift_left
seen-shift_left ws amount p h hp =
    let k : ℕ = amount / 64 in
    let s : ℕ = amount % 64 in
    let moved = shift_words k (length ws) ws in
    let same : length moved ≡ length ws = length-shift_words k (length ws) ws in
    let moved-IsWord = shift_words-IsWord k (length ws) ws h in
    let back : p - s - 64 * k ≡ p - amount = omega arith in
    ground (
      arith,
      same,
      back,
      seen-shift_words k ws p hp,
      seen-shift_words k ws (p - s) (omega arith),
      λ (q : 0 < s). seen-shift_bits s moved p q (omega arith) moved-IsWord (omega (arith, same)),
      λ (q : 0 < amount) (r : amount < 64). seen-shift_bits amount ws p q r h hp,
    )
