-- ===== src/Crypto/Replay.antt =====
-- `ReplayWindow` of crates/ceky-crypto/src/session.rs: which nonces of the last 256 were seen.
-- A word is a number below 2 ^ 64; `usize` has 64 bits.
pub mod History
pub mod Shift
pub mod Mark
pub mod Refines
mod Tests
use ceky_p2p.Common.{
  ℕ, zero, suc, ◌+◌, ◌-◌, ◌*◌, ◌/◌, ◌%◌, ◌^◌, bit_and, bit_or, Bool, true, false, not, List, [],
  ◌∷◌, ltb, leb, ◌==◌, if◌then◌else◌, length, get_or, set, replicate,
}

abbrev pub replay_window_size : ℕ
replay_window_size = 256

-- Bit i of the bitmap, counted through its words, stands for the nonce max_nonce - i.
pub record ReplayWindow : Type 0 where
  pub max_nonce : ℕ
  pub bitmap : List ℕ

pub new : ReplayWindow
new = record { max_nonce = 0; bitmap = replicate 4 0 }

-- `w << s` of a u64, for s < 64.
abbrev pub shl : ℕ → ℕ → ℕ
shl w s = w * 2 ^ s % 2 ^ 64

abbrev pub shr : ℕ → ℕ → ℕ
shr w s = w / 2 ^ s

-- The loop that shifts whole words, from index n - 1 down to 0.
pub shift_words : ℕ → ℕ → List ℕ → List ℕ
shift_words word_shift zero ws = ws
shift_words word_shift (suc i) ws =
    shift_words word_shift i
      (set ws i (if leb word_shift i then get_or ws (i - word_shift) 0 else 0))

-- The loop that shifts by less than a word, from index n - 1 down to 0.
pub shift_bits : ℕ → ℕ → List ℕ → List ℕ
shift_bits amount zero ws = ws
shift_bits amount (suc i) ws =
    let moved = shl (get_or ws i 0) amount in
    shift_bits amount i
      (set ws i (if ltb 0 i then bit_or moved (shr (get_or ws (i - 1) 0) (64 - amount)) else moved))

pub shift_left : List ℕ → ℕ → List ℕ
shift_left bitmap amount =
    if leb 64 amount
    then (let moved = shift_words (amount / 64) (length bitmap) bitmap in
        if ltb 0 (amount % 64) then shift_bits (amount % 64) (length moved) moved else moved)
    else (if ltb 0 amount then shift_bits amount (length bitmap) bitmap else bitmap)

-- `bitmap[word] |= 1 << bit`
pub set_bit : List ℕ → ℕ → ℕ → List ℕ
set_bit bitmap word b = set bitmap word (bit_or (get_or bitmap word 0) (2 ^ b))

-- Whether the nonce is new; a new one is marked.
pub check_and_mark : ReplayWindow → ℕ → ReplayWindow × Bool
check_and_mark w nonce =
    if ltb w.max_nonce nonce
    then (let shift = nonce - w.max_nonce in
        let moved =
          if leb replay_window_size shift then replicate 4 0 else shift_left w.bitmap shift in
        (record { max_nonce = nonce; bitmap = set_bit moved 0 0 }, true))
    else let diff = w.max_nonce - nonce in
      if leb replay_window_size diff
      then (w, false)
      else (if not (bit_and (get_or w.bitmap (diff / 64) 0) (2 ^ (diff % 64)) == 0)
          then (w, false)
          else (record w { bitmap = set_bit w.bitmap (diff / 64) (diff % 64) }, true))

-- The nonces of a sequence that the window accepts, the last one first.
pub accepted : ReplayWindow → List ℕ → List ℕ → List ℕ
accepted w [] seen = seen
accepted w (n ∷ ns) seen =
    let (w', fresh) = check_and_mark w n in accepted w' ns (if fresh then n ∷ seen else seen)
