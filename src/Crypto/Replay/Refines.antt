-- ===== src/Crypto/Replay/Refines.antt =====
-- The replay window of crates/ceky-crypto/src/session.rs refines the history of accepted nonces.
use native.Mathlib.Decide.{dec_lt}
use ceky_p2p.Common.{
  ℕ, ◌-◌, ◌/◌, ◌%◌, ◌≤◌, ◌<◌, ◌≡◌, refl, ◌∙◌, subst, arith, List, [], ◌∷◌, ltb, leb, if◌then◌else◌,
  length, All, replicate, get_or-replicate, Bool-cases, inl, inr, lt→ltb, ge→ltb, le→leb, gt→leb,
}
use ceky_p2p.Common.Bits.{bit-zero}
use ceky_p2p.Crypto.Replay.{
  ReplayWindow, replay_window_size, new, check_and_mark, accepted, set_bit, shift_left,
}
use ceky_p2p.Crypto.Replay.History.{
  mem, newest, accepts, record_accepted, accepted_by_history, Distinct, mem-above,
  accepted_by_history-Distinct,
}
use ceky_p2p.Crypto.Replay.Shift.{
  IsWord, seen, length-shift_left, shift_left-IsWord, seen-shift_left,
}
use ceky_p2p.Crypto.Replay.Mark.{length-set_bit, set_bit-IsWord, seen-set_bit, unmarked-seen}

-- The window stands for a history: four words whose marks say which of the last 256 nonces were
-- accepted.
pub record Stands (w : ReplayWindow) (history : List ℕ) : Type 0 where
  pub words : length w.bitmap ≡ 4
  pub bounded : All IsWord w.bitmap
  pub highest : newest history ≡ w.max_nonce
  pub marks :
      (p : ℕ)
      → p < 256
      → p ≤ w.max_nonce
      → seen w.bitmap p ≡ (if mem (w.max_nonce - p) history then 1 else 0)

pub new-Stands : Stands new []
unfolding new seen newest
new-Stands = record {
  words = refl;
  bounded = omega arith;
  highest = refl;
  marks = λ p h k. rw (get_or-replicate {A = ℕ} 4 0 (p / 64)) (bit-zero (p % 64));
}

-- The bitmap when the window moves up by shift.
abbrev slid : List ℕ → ℕ → List ℕ
slid bitmap shift = if leb replay_window_size shift then replicate 4 0 else shift_left bitmap shift

slid-words : (ws : List ℕ) (shift : ℕ) → length ws ≡ 4 → length (slid ws shift) ≡ 4
slid-words ws shift h = ground (arith, length-shift_left ws shift)

slid-IsWord : (ws : List ℕ) (shift : ℕ) → All IsWord ws → All IsWord (slid ws shift)
slid-IsWord ws shift h = elim (dec_lt shift 256) [
  | yes q ↦ rw (gt→leb 256 shift q) (shift_left-IsWord ws shift h)
  | no q ↦ rw (le→leb 256 shift (omega arith)) (omega arith)
]

seen-slid :
    (ws : List ℕ) (shift p : ℕ)
    → length ws ≡ 4
    → All IsWord ws
    → p < 256
    → seen (slid ws shift) p ≡ (if ltb p shift then 0 else seen ws (p - shift))
unfolding seen
seen-slid ws shift p h fits hp = elim (dec_lt shift 256) [
  | yes q ↦ rw (gt→leb 256 shift q) (seen-shift_left ws shift p fits (omega arith))
  | no q ↦
      rw
        (
          le→leb 256 shift (omega arith),
          lt→ltb p shift (omega arith),
          get_or-replicate {A = ℕ} 4 0 (p / 64),
        )
        (bit-zero (p % 64))
]

-- A nonce above all others moves the window up.
slide-Stands :
    (w : ReplayWindow) (history : List ℕ) (n : ℕ)
    → Stands w history
    → w.max_nonce < n
    → Stands
        (record { max_nonce = n; bitmap = set_bit (slid w.bitmap (n - w.max_nonce)) 0 0 })
        (n ∷ history)
unfolding newest
slide-Stands w history n s h = record {
  words = length-set_bit moved 0 0 ∙ words;
  bounded = set_bit-IsWord moved 0 0 (omega arith) (slid-IsWord w.bitmap shift s.bounded);
  highest = omega (arith, s.highest);
  marks = λ p hp hm. ground (
    arith,
    seen-set_bit moved 0 p (omega (arith, words)),
    seen-slid w.bitmap shift p s.words s.bounded hp,
    λ (q : shift ≤ p). s.marks (p - shift) (omega arith) (omega arith),
    mem-above (n - p) history,
    s.highest,
    back p,
  );
}
  where
    shift : ℕ
    shift = n - w.max_nonce

    moved : List ℕ
    moved = slid w.bitmap shift

    words : length moved ≡ 4
    words = slid-words w.bitmap shift s.words

    back : (p : ℕ) → shift ≤ p → p ≤ n → w.max_nonce - (p - shift) ≡ n - p
    back p a b = omega arith

-- A nonce inside the window that has no mark gets one.
mark-Stands :
    (w : ReplayWindow) (history : List ℕ) (n : ℕ)
    → Stands w history
    → n ≤ w.max_nonce
    → w.max_nonce - n < 256
    → Stands
        (record w { bitmap = set_bit w.bitmap ((w.max_nonce - n) / 64) ((w.max_nonce - n) % 64) })
        (n ∷ history)
unfolding newest
mark-Stands w history n s h hn = record {
  words = length-set_bit w.bitmap (diff / 64) (diff % 64) ∙ s.words;
  bounded = set_bit-IsWord w.bitmap (diff / 64) (diff % 64) (omega arith) s.bounded;
  highest = omega (arith, s.highest);
  marks = λ p hp hm.
      ground (arith, seen-set_bit w.bitmap diff p (omega (arith, s.words)), s.marks p hp hm);
}
  where
    diff : ℕ
    diff = w.max_nonce - n

-- From a window that stands for a history, `check_and_mark` gives the history's verdict, and the new
-- window stands for the history with the nonce added if it was accepted.
pub check_and_mark-Stands :
    (w : ReplayWindow) (history : List ℕ) (n : ℕ)
    → Stands w history
    → ((check_and_mark w n).1 ≡ accepts history n)
      × Stands (check_and_mark w n).0 (record_accepted history n)
unfolding check_and_mark accepts
check_and_mark-Stands w history n s = elim (dec_lt w.max_nonce n) [
  | yes above ↦ rw (s.highest, lt→ltb w.max_nonce n above) (refl, slide-Stands w history n s above)
  | no below ↦
      rw (s.highest, ge→ltb w.max_nonce n (omega arith))
        (elim (dec_lt diff 256) [
          | yes recent ↦
              rw
                (
                  lt→ltb diff 256 recent,
                  gt→leb 256 diff recent,
                  unmarked-seen w.bitmap diff,
                  mark below recent,
                )
                (elim (Bool-cases (mem n history)) [
                  | inl old ↦ rw old (refl, s)
                  | inr fresh ↦ rw fresh (refl, mark-Stands w history n s (omega arith) recent)
                ])
          | no ancient ↦ rw (ge→ltb diff 256 (omega arith), le→leb 256 diff (omega arith)) (refl, s)
        ])
]
  where
    diff : ℕ
    diff = w.max_nonce - n

    mark : ¬ (w.max_nonce < n) → diff < 256 → seen w.bitmap diff ≡ (if mem n history then 1 else 0)
    mark below recent =
        let back : w.max_nonce - diff ≡ n = omega arith in
        subst (λ (m : ℕ). seen w.bitmap diff ≡ (if mem m history then 1 else 0)) back
          (s.marks diff recent (omega arith))

-- Any sequence of nonces.
accepted-Stands :
    (w : ReplayWindow) (history ns : List ℕ)
    → Stands w history
    → accepted w ns history ≡ accepted_by_history history ns
unfolding accepted accepted_by_history
accepted-Stands w history [] s = refl
accepted-Stands w history (n ∷ ns) s =
    let (verdict, next) = check_and_mark-Stands w history n s in
    rw verdict (accepted-Stands (check_and_mark w n).0 (record_accepted history n) ns next)

-- On every sequence of nonces a new window accepts exactly those that the history accepts.
pub accepted-new : (ns : List ℕ) → accepted new ns [] ≡ accepted_by_history [] ns
accepted-new ns = accepted-Stands new [] ns new-Stands

-- A new window accepts no nonce twice, whatever sequence of nonces arrives.
pub accepted-Distinct : (ns : List ℕ) → Distinct (accepted new ns [])
accepted-Distinct ns = rw (accepted-new ns) (accepted_by_history-Distinct [] ns tt)
