-- ===== src/Crypto/Replay/History.antt =====
-- What the replay window of crates/ceky-crypto/src/session.rs promises, said of the nonces accepted
-- so far and without words and bits.
use ceky_p2p.Common.{
  ℕ, ◌-◌, ◌≤◌, ◌<◌, ◌≡◌, ◌⊎◌, inl, inr, refl, arith, Bool, true, false, not, ◌&&◌, ◌||◌, List, [],
  ◌∷◌, max, ltb, ◌==◌, if◌then◌else◌, All, any,
}
use ceky_p2p.Crypto.Replay.{replay_window_size}

abbrev pub mem : ℕ → List ℕ → Bool
mem n = any (λ m. m == n)

-- The highest nonce accepted so far.
unfoldable pub newest : List ℕ → ℕ
newest [] = 0
newest (n ∷ ns) = max n (newest ns)

-- A nonce is accepted if it is above all others, or if it is less than 256 below the highest and
-- was not accepted before.
unfoldable pub accepts : List ℕ → ℕ → Bool
accepts history n =
    ltb (newest history) n || (ltb (newest history - n) replay_window_size && not (mem n history))

abbrev pub record_accepted : List ℕ → ℕ → List ℕ
record_accepted history n = if accepts history n then n ∷ history else history

unfoldable pub accepted_by_history : List ℕ → List ℕ → List ℕ
accepted_by_history history [] = history
accepted_by_history history (n ∷ ns) = accepted_by_history (record_accepted history n) ns

abbrev pub Distinct : List ℕ → Type 0
Distinct [] = Unit {0}
Distinct (n ∷ ns) = (mem n ns ≡ false) × Distinct ns

pub mem-above : (n : ℕ) (history : List ℕ) → mem n history ≡ true → n ≤ newest history
unfolding newest
mem-above n [] h = cc
mem-above n (m ∷ ms) h = ground (arith, mem-above n ms)

pub record_accepted-Distinct :
    (history : List ℕ) (n : ℕ) → Distinct history → Distinct (record_accepted history n)
unfolding accepts
record_accepted-Distinct history n d = ground (arith, mem-above n history)

pub accepted_by_history-Distinct :
    (history ns : List ℕ) → Distinct history → Distinct (accepted_by_history history ns)
unfolding accepted_by_history
accepted_by_history-Distinct history [] d = d
accepted_by_history-Distinct history (n ∷ ns) d =
    accepted_by_history-Distinct (record_accepted history n) ns
      (record_accepted-Distinct history n d)

-- A nonce that was offered is not accepted again.
pub record_accepted-accepts :
    (history : List ℕ) (n : ℕ) → accepts (record_accepted history n) n ≡ false
unfolding accepts newest
record_accepted-accepts history n = ground (arith, mem-above n history)

mem-below : (n : ℕ) (history : List ℕ) → All (λ m. m < n) history → mem n history ≡ false
mem-below n [] h = refl
mem-below n (m ∷ ms) h = ground (arith, mem-below n ms h.1)

newest-below :
    (n : ℕ) (history : List ℕ)
    → All (λ m. m < n) history
    → (newest history < n) ⊎ ((history ≡ []) × (newest history ≡ 0))
unfolding newest
newest-below n [] h = inr (refl, refl)
newest-below n (m ∷ ms) h = inl (ground (arith, newest-below n ms h.1))

-- A nonce above all that were accepted is accepted, the very first one too.
pub accepts_next : (n : ℕ) (history : List ℕ) → All (λ m. m < n) history → accepts history n ≡ true
unfolding accepts
accepts_next n history h = ground (arith, newest-below n history h, mem-below n history h)
