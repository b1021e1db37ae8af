-- ===== src/Crypto/Replay/Tests.antt =====
-- `ReplayWindow` of crates/ceky-crypto/src/session.rs on the sequences of its tests, and the theorems at
-- concrete inputs.
use ceky_p2p.Common.{ℕ, ◌≡◌, refl, List, [], ◌∷◌}
use ceky_p2p.Crypto.Replay.{
  new, check_and_mark, accepted, shift_words, shift_bits, shift_left, set_bit,
}
use ceky_p2p.Crypto.Replay.History.{Distinct, accepts, record_accepted, accepted_by_history}
use ceky_p2p.Crypto.Replay.Refines.{
  Stands, new-Stands, check_and_mark-Stands, accepted-new, accepted-Distinct,
}

-- The nonces 0, 1 and 2, then 1 again, then 300, then 2 again, then 100.
abbrev nonces : List ℕ
nonces = 0 ∷ 1 ∷ 2 ∷ 1 ∷ 300 ∷ 2 ∷ 100 ∷ []

accepted-nonces : accepted new nonces [] ≡ 100 ∷ 300 ∷ 2 ∷ 1 ∷ 0 ∷ []
unfolding accepted new check_and_mark shift_left shift_words shift_bits set_bit
accepted-nonces = refl

check_and_mark-Stands_example :
    ((check_and_mark new 7).1 ≡ accepts [] 7)
    × Stands (check_and_mark new 7).0 (record_accepted [] 7)
check_and_mark-Stands_example = check_and_mark-Stands new [] 7 new-Stands

accepted-new_example : accepted new nonces [] ≡ accepted_by_history [] nonces
accepted-new_example = accepted-new nonces

accepted-Distinct_example : Distinct (accepted new nonces [])
accepted-Distinct_example = accepted-Distinct nonces
