-- ===== src/Nat/HolePunch/First.antt =====
-- When a punch of crates/ceky-nat/src/hole_punch.rs succeeds, and what it has sent.
use ceky_p2p.Common.{
  ℕ, zero, suc, ◌+◌, ◌%◌, ◌^◌, ◌<◌, ◌≡◌, refl, sym, subst, ◌∙◌, arith, true, false, List, ◌++◌, leb,
  le→leb, length, All, All-append, length-append, take-append_of,
}
use ceky_p2p.Common.Bytes.{be_bytes}
use ceky_p2p.Common.Outcome.{Outcome, ok, err}
use ceky_p2p.Dht.KBucket.Peers.{id_eq_iff}
use ceky_p2p.Protocol.Find.{SocketAddr}
use ceky_p2p.Nat.Relay.{NatError, hole_punch_failed}
use ceky_p2p.Nat.HolePunch.{
  HolePunchConfig, HolePunchResult, build_punch_packet, is_punch_packet, packets, Received, arrived,
  recv_error, timed_out, judge, punch_from, punch, sent_from, punch_packets,
}

is_punch_packet-build :
    (config : HolePunchConfig) (round seq : ℕ)
    → length config.magic ≡ 4
    → is_punch_packet config (build_punch_packet config round seq) ≡ true
unfolding is_punch_packet build_punch_packet
is_punch_packet-build config round seq four =
    let rest = be_bytes 4 round ++ be_bytes 4 seq in
    let long : leb 4 (length (config.magic ++ rest)) ≡ true =
      le→leb _ _ (omega (arith, length-append config.magic rest, four)) in
    rw (long, take-append_of 4 config.magic rest four)
      ((id_eq_iff config.magic config.magic).1 refl)

packets-IsPunch :
    (config : HolePunchConfig) (round left seq : ℕ)
    → length config.magic ≡ 4
    → All (λ p. is_punch_packet config p ≡ true) (packets config round left seq)
unfolding packets
packets-IsPunch config round zero seq four = tt
packets-IsPunch config round (suc left) seq four = (
  is_punch_packet-build config (round % 2 ^ 32) (seq % 2 ^ 32) four,
  packets-IsPunch config round left (suc seq) four,
)

sent_from-IsPunch :
    (config : HolePunchConfig) (left round : ℕ)
    → length config.magic ≡ 4
    → All (λ p. is_punch_packet config p ≡ true) (sent_from config left round)
unfolding sent_from
sent_from-IsPunch config zero round four = tt
sent_from-IsPunch config (suc left) round four =
    All-append (λ p. is_punch_packet config p ≡ true)
      (packets config round config.packets_per_round 0) (sent_from config left (suc round))
      (packets-IsPunch config round config.packets_per_round 0 four)
      (sent_from-IsPunch config left (suc round) four)

-- With a magic of four bytes, the other side's test accepts every packet that a punch sends.
pub punch_packets-IsPunch :
    (config : HolePunchConfig)
    → length config.magic ≡ 4
    → All (λ p. is_punch_packet config p ≡ true) (punch_packets config)
unfolding punch_packets
punch_packets-IsPunch config four = sent_from-IsPunch config config.max_rounds 0 four

-- Bytes that are no punch packet, an error, or nothing.
abbrev pub IsMiss : HolePunchConfig → Received → Type 0
IsMiss config (arrived packet from duration) = is_punch_packet config packet ≡ false
IsMiss config recv_error = Unit {0}
IsMiss config timed_out = Unit {0}

judge-miss :
    (config : HolePunchConfig) (round : ℕ) (r : Received) (rest : Outcome NatError HolePunchResult)
    → IsMiss config r
    → judge config round r rest ≡ rest
unfolding judge
judge-miss config round (arrived packet from duration) rest miss = rw miss refl
judge-miss config round recv_error rest miss = refl
judge-miss config round timed_out rest miss = refl

punch_from_first :
    (config : HolePunchConfig) (received : ℕ → Received) (left round n : ℕ) (packet : List ℕ)
    (from : SocketAddr) (duration : ℕ)
    → n < left
    → ((m : ℕ) → m < n → IsMiss config (received (round + m)))
    → received (round + n) ≡ arrived packet from duration
    → is_punch_packet config packet ≡ true
    → punch_from config received left round
      ≡ ok (record { peer_addr = from; duration = duration; rounds = round + n + 1 })
unfolding punch_from judge
punch_from_first config received zero round n packet from duration room misses hit punches =
    absurd (omega arith)
punch_from_first config received (suc left) round zero packet from duration room misses hit
      punches =
    let here : round + 0 ≡ round = omega arith in rw (here, rw here at hit, judge, punches) refl
punch_from_first config received (suc left) round (suc n) packet from duration room misses hit
      punches =
    let here : round + 0 ≡ round = omega arith in
    let further : (m : ℕ) → round + suc m ≡ suc round + m = λ m. omega arith in
    rw
      (
        judge-miss config round (received round) (punch_from config received left (suc round))
            (subst (λ k. IsMiss config (received k)) here (misses 0 (omega arith))),
        further n,
      )
      (punch_from_first config received left (suc round) n packet from duration (omega arith)
        (λ m less.
          subst (λ k. IsMiss config (received k)) (further m) (misses (suc m) (omega arith)))
        (rw (further n) at hit) punches)

punch_from_never :
    (config : HolePunchConfig) (received : ℕ → Received) (left round : ℕ)
    → ((m : ℕ) → m < left → IsMiss config (received (round + m)))
    → punch_from config received left round ≡ err hole_punch_failed
unfolding punch_from
punch_from_never config received zero round misses = refl
punch_from_never config received (suc left) round misses =
    let here : round + 0 ≡ round = omega arith in
    let further : (m : ℕ) → round + suc m ≡ suc round + m = λ m. omega arith in
    judge-miss config round (received round) (punch_from config received left (suc round))
      (subst (λ k. IsMiss config (received k)) here (misses 0 (omega arith)))
    ∙ punch_from_never config received left (suc round) (λ m less.
      subst (λ k. IsMiss config (received k)) (further m) (misses (suc m) (omega arith)))

from_zero : (m : ℕ) → m ≡ 0 + m
from_zero m = omega arith

-- If the first punch packet comes in round n, below the limit, a punch succeeds after n + 1 rounds with
-- the sender of that packet, whoever it is.
pub punch_first :
    (config : HolePunchConfig) (received : ℕ → Received) (n : ℕ) (packet : List ℕ)
    (from : SocketAddr) (duration : ℕ)
    → n < config.max_rounds
    → ((m : ℕ) → m < n → IsMiss config (received m))
    → received n ≡ arrived packet from duration
    → is_punch_packet config packet ≡ true
    → punch config received ≡ ok (record { peer_addr = from; duration = duration; rounds = n + 1 })
unfolding punch
punch_first config received n packet from duration room misses hit punches =
    subst
      (λ (k : ℕ).
        punch_from config received config.max_rounds 0
        ≡ ok (record { peer_addr = from; duration = duration; rounds = k + 1 }))
      (sym (from_zero n))
      (punch_from_first config received config.max_rounds 0 n packet from duration room
        (λ m less. subst (λ k. IsMiss config (received k)) (from_zero m) (misses m less))
        (rw (← from_zero n) hit) punches)

-- If no punch packet comes in any round, a punch fails.
pub punch_never :
    (config : HolePunchConfig) (received : ℕ → Received)
    → ((m : ℕ) → m < config.max_rounds → IsMiss config (received m))
    → punch config received ≡ err hole_punch_failed
unfolding punch
punch_never config received misses =
    punch_from_never config received config.max_rounds 0
      (λ m less. subst (λ k. IsMiss config (received k)) (from_zero m) (misses m less))
