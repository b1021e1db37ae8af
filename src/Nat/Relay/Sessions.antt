-- ===== src/Nat/Relay/Sessions.antt =====
-- What clean-up and creation of crates/ceky-nat/src/relay.rs leave of the sessions.
use ceky_p2p.Common.{
  ℕ, ◌+◌, ◌%◌, ◌^◌, ◌≤◌, ◌≡◌, refl, sym, ◌∙◌, ap, arith, Bool, true, false, ◌||◌, inl, inr, none,
  some, List, [], ◌∷◌, if◌then◌else◌, length, All, Bool-cases, Option-cases, ==→eq, ◌==◌,
}
use mathlib.Core.Option.{some-injective}
use ceky_p2p.Common.Maps.{
  lookup, erase, has_key, IsMap, length-erase, All-erase, erase-IsMap, lookup-erase_ne,
  lookup-erase_self,
}
use ceky_p2p.Nat.Relay.{
  RelayConfig, RelaySession, RelayService, is_expired, expired_ids, remove_all, cleanup_expired,
}

-- What one peer sent the other received, and together they sent what was relayed.
abbrev pub Balanced : RelaySession → Type 0
Balanced s =
    (s.peer_a.bytes_sent ≡ s.peer_b.bytes_received)
    × (s.peer_b.bytes_sent ≡ s.peer_a.bytes_received)
    × ((s.peer_a.bytes_sent + s.peer_b.bytes_sent) % 2 ^ 64 ≡ s.bytes_relayed)

-- A session under its own id, with its counters in balance.
abbrev pub IsEntry : ℕ × RelaySession → Type 0
IsEntry e = (e.1.session_id ≡ e.0) × Balanced e.1

unfoldable pub IsRelay : RelayService → Type 0
IsRelay r = IsMap r.sessions × All IsEntry r.sessions × (length r.sessions ≤ r.config.max_sessions)

remove_all_lem :
    (ids : List ℕ) (es : List (ℕ × RelaySession))
    → IsMap es
    → All IsEntry es
    → IsMap (remove_all ids es)
      × All IsEntry (remove_all ids es)
      × (length (remove_all ids es) ≤ length es)
unfolding remove_all
remove_all_lem [] es m a = (m, a, omega arith)
remove_all_lem (id ∷ ids) es m a =
    let (m', a', le) =
      remove_all_lem ids (erase id es) (erase-IsMap id es m) (All-erase IsEntry id es a) in
    (m', a', omega (arith, le, length-erase id es))

abbrev is_among : ℕ → List ℕ → Bool
is_among id [] = false
is_among id (i ∷ ids) = (i == id) || is_among id ids

lookup-erase :
    (j k : ℕ) (es : List (ℕ × RelaySession))
    → IsMap es
    → lookup j (erase k es) ≡ (if k == j then none else lookup j es)
lookup-erase j k es m = elim (Bool-cases (k == j)) [
  | inl same ↦
      let key : k ≡ j = ==→eq k j same in
      rw same (ap (λ (x : ℕ). lookup j (erase x es)) key ∙ lookup-erase_self j es m)
  | inr other ↦ rw other (lookup-erase_ne j k es (λ e. cc (other, e, key_self j)))
]
  where
    key_self : (n : ℕ) → (n == n) ≡ true
    key_self n = ground arith

lookup-remove_all :
    (j : ℕ) (ids : List ℕ) (es : List (ℕ × RelaySession))
    → IsMap es
    → lookup j (remove_all ids es) ≡ (if is_among j ids then none else lookup j es)
unfolding remove_all
lookup-remove_all j [] es m = refl
lookup-remove_all j (id ∷ ids) es m =
    let later = lookup-remove_all j ids (erase id es) (erase-IsMap id es m) in
    let now = lookup-erase j id es m in
    elim (Bool-cases (id == j)) [
      | inl same ↦ rw same (
          later
          ∙ rw (now, same)
              (elim (Bool-cases (is_among j ids)) [ inl h ↦ rw h refl | inr h ↦ rw h refl ]))
      | inr other ↦ rw other (later ∙ rw (now, other) refl)
    ]

is_among-expired_absent :
    (config : RelayConfig) (now j : ℕ) (es : List (ℕ × RelaySession))
    → has_key j es ≡ false
    → is_among j (expired_ids config now es) ≡ false
unfolding expired_ids
is_among-expired_absent config now j [] h = refl
is_among-expired_absent config now j (e ∷ es) h = elim (Bool-cases (is_expired config now e.1)) [
  | inl out ↦ rw out (ground (arith, is_among-expired_absent config now j es, h))
  | inr stays ↦ rw stays (is_among-expired_absent config now j es (ground (arith, h)))
]

is_among-expired_ids :
    (config : RelayConfig) (now j : ℕ) (s : RelaySession) (es : List (ℕ × RelaySession))
    → IsMap es
    → lookup j es ≡ some s
    → is_among j (expired_ids config now es) ≡ is_expired config now s
unfolding expired_ids
is_among-expired_ids config now j s [] m e = cc
is_among-expired_ids config now j s (x ∷ es) m e = elim (Bool-cases (x.0 == j)) [
  | inl same ↦
      let key : x.0 ≡ j = ==→eq x.0 j same in
      let val : x.1 ≡ s = some-injective x.1 s (rw same at e) in
      let none_later =
        is_among-expired_absent config now j es (ap (λ (y : ℕ). has_key y es) (sym key) ∙ m.0) in
      rw (← val) (elim (Bool-cases (is_expired config now x.1)) [
        | inl out ↦ rw (out, same) refl
        | inr stays ↦ rw stays none_later
      ])
  | inr other ↦
      let later = is_among-expired_ids config now j s es m.1 (rw other at e) in
      elim (Bool-cases (is_expired config now x.1)) [
        | inl out ↦ rw (out, other) later
        | inr stays ↦ rw stays later
      ]
]

-- `cleanup_expired` takes a session out if it is closed, idle too long or too old, and leaves it as it was
-- if not; it adds none.
pub cleanup_expired_lem :
    (r : RelayService) (now id : ℕ)
    → IsMap r.sessions
    → lookup id (cleanup_expired r now).0.sessions ≡ elim (lookup id r.sessions) [
      | none ↦ none
      | some s ↦ if is_expired r.config now s then none else some s
    ]
unfolding cleanup_expired
cleanup_expired_lem r now id m =
    let gone = expired_ids r.config now r.sessions in
    elim (Option-cases (lookup id r.sessions)) [
      | inl absent ↦
          lookup-remove_all id gone r.sessions m
          ∙ rw absent
              (elim (Bool-cases (is_among id gone)) [ inl h ↦ rw h refl | inr h ↦ rw h refl ])
      | inr (s, e) ↦
          lookup-remove_all id gone r.sessions m
          ∙ rw (is_among-expired_ids r.config now id s r.sessions m e, e) refl
    ]

pub cleanup_expired-IsRelay :
    (r : RelayService) (now : ℕ) → IsRelay r → IsRelay (cleanup_expired r now).0
unfolding cleanup_expired IsRelay
cleanup_expired-IsRelay r now inv =
    let (m, a, le) = remove_all_lem (expired_ids r.config now r.sessions) r.sessions inv.0 inv.1 in
    (m, a, omega (arith, le, inv.2))
