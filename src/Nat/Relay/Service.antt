-- ===== src/Nat/Relay/Service.antt =====
-- The relay service of crates/ceky-nat/src/relay.rs as a step relation: what holds of every service that
-- can be reached, and how a session can change.
use ceky_p2p.Common.{
  ℕ, ◌≡◌, ◌≢◌, ◌⊎◌, refl, sym, ◌∙◌, arith, Bool, inl, inr, none, some, length, Bool-cases,
  Option-cases, leb,
}
use ceky_p2p.Common.Outcome.{ok}
use ceky_p2p.Common.Float.{Float}
use ceky_p2p.Common.Maps.{lookup, lookup-assign_ne}
use ceky_p2p.Crypto.PeerId.{PeerId}
use ceky_p2p.Nat.Relay.{
  RelayConfig, closed, RelaySession, RelayService, new_service, is_expired, cleanup_expired,
  opened_session, create_session, activated, activate_session, close_session, relayed, record_relay,
}
use ceky_p2p.Nat.Relay.Sessions.{IsRelay, cleanup_expired_lem, cleanup_expired-IsRelay}
use ceky_p2p.Nat.Relay.Steps.{
  Becomes, Becomes-refl, activated-Becomes, closed-Becomes, relayed-Becomes, Wrote, wrote,
  with_session-Wrote, Wrote-IsRelay, Wrote-Becomes, create-IsRelay,
}

module _ (float : Float) where
  -- The operations that change the service.
  pub data Step (r : RelayService) : RelayService → Type 0 where
    created :
        (a : PeerId) (a_addr : ℕ) (b : PeerId) (b_addr now : ℕ)
        → Step r (create_session r a a_addr b b_addr now).0
    activation : (id now : ℕ) {t : RelayService} → activate_session r id now ≡ ok t → Step r t
    relaying :
        (id bytes : ℕ) (from_a : Bool) (now : ℕ) {t : RelayService}
        → record_relay float r id bytes from_a now ≡ ok t
        → Step r t
    closing : (id : ℕ) → Step r (close_session r id)
    cleaning : (now : ℕ) → Step r (cleanup_expired r now).0

  -- The services that the operations reach.
  pub data Reachable (config : RelayConfig) : RelayService → Type 0 where
    fresh : Reachable config (new_service config)
    after : {r t : RelayService} → Reachable config r → Step r t → Reachable config t

  activate-Wrote : (r t : RelayService) (id now : ℕ) → activate_session r id now ≡ ok t → Wrote r t
  unfolding activate_session
  activate-Wrote r t id now e = with_session-Wrote r id (activated now) t (activated-Becomes now) e

  relay-Wrote :
      (r t : RelayService) (id bytes : ℕ) (from_a : Bool) (now : ℕ)
      → record_relay float r id bytes from_a now ≡ ok t
      → Wrote r t
  unfolding record_relay
  relay-Wrote r t id bytes from_a now e =
      with_session-Wrote r id (relayed float r.config bytes from_a now) t
        (relayed-Becomes float r.config bytes from_a now) e

  close-Wrote :
      (r : RelayService) (id : ℕ) → (close_session r id ≡ r) ⊎ Wrote r (close_session r id)
  unfolding close_session
  close-Wrote r id = elim (Option-cases (lookup id r.sessions)) [
    | inl absent ↦ inl (rw (close_session, absent) refl)
    | inr (s, found) ↦ inr (
        rw (close_session, found)
          (wrote id s (record s { state = closed }) found (closed-Becomes s)))
  ]

  Step-IsRelay : (r t : RelayService) → Step r t → IsRelay r → IsRelay t
  Step-IsRelay r t (created a a_addr b b_addr now) inv = create-IsRelay r a a_addr b b_addr now inv
  Step-IsRelay r t (activation id now e) inv = Wrote-IsRelay (activate-Wrote r t id now e) inv
  Step-IsRelay r t (relaying id bytes from_a now e) inv =
      Wrote-IsRelay (relay-Wrote r t id bytes from_a now e) inv
  Step-IsRelay r t (closing id) inv = elim (close-Wrote r id) [
    | inl same ↦ rw same inv
    | inr w ↦ Wrote-IsRelay w inv
  ]
  Step-IsRelay r t (cleaning now) inv = cleanup_expired-IsRelay r now inv

  -- Every service that can be reached has each session under its own id and none twice, no more sessions
  -- than the limit, and in each session the bytes sent by one peer are those received by the other, and
  -- together those relayed, up to the wrap of the counters.
  pub Reachable-IsRelay : {config : RelayConfig} {r : RelayService} → Reachable config r → IsRelay r
  unfolding IsRelay
  Reachable-IsRelay fresh = (tt, tt, omega arith)
  Reachable-IsRelay (after {r} {t} reach step) = Step-IsRelay r t step (Reachable-IsRelay reach)

  -- What may become of a session.
  pub Fate : RelayService → ℕ → RelaySession → Type 0
  Fate t id s =
      (lookup id t.sessions ≡ none)
      ⊎ ((s' : RelaySession) × (lookup id t.sessions ≡ some s') × Becomes s s')

  cleaned-Fate :
      (r : RelayService) (now id : ℕ) (s : RelaySession)
      → IsRelay r
      → lookup id r.sessions ≡ some s
      → Fate (cleanup_expired r now).0 id s
  unfolding Fate IsRelay
  cleaned-Fate r now id s inv e =
      let after_it = cleanup_expired_lem r now id inv.0 in
      elim (Bool-cases (is_expired r.config now s)) [
        | inl out ↦ inl (after_it ∙ rw (e, out) refl)
        | inr stays ↦ inr (s, after_it ∙ rw (e, stays) refl, Becomes-refl s)
      ]

  opened-Fate :
      (r : RelayService) (a : PeerId) (a_addr : ℕ) (b : PeerId) (b_addr now id : ℕ)
      (s : RelaySession)
      → id ≢ r.next_session_id
      → Fate r id s
      → Fate (opened_session r a a_addr b b_addr now).0 id s
  unfolding Fate opened_session
  opened-Fate r a a_addr b b_addr now id s ne fate =
      rw (lookup-assign_ne id r.next_session_id _ r.sessions (λ e. ne (sym e))) fate

  kept :
      (r : RelayService) (id : ℕ) (s : RelaySession) → lookup id r.sessions ≡ some s → Fate r id s
  unfolding Fate
  kept r id s e = inr (s, e, Becomes-refl s)

  created-Fate :
      (r : RelayService) (a : PeerId) (a_addr : ℕ) (b : PeerId) (b_addr now id : ℕ)
      (s : RelaySession)
      → IsRelay r
      → id ≢ r.next_session_id
      → lookup id r.sessions ≡ some s
      → Fate (create_session r a a_addr b b_addr now).0 id s
  unfolding create_session
  created-Fate r a a_addr b b_addr now id s inv ne e =
      let r' = (cleanup_expired r now).0 in
      let clean = cleaned-Fate r now id s inv e in
      elim (Bool-cases (leb r.config.max_sessions (length r.sessions))) [
        | inr room ↦ rw room (opened-Fate r a a_addr b b_addr now id s ne (kept r id s e))
        | inl full ↦ elim (Bool-cases (leb r'.config.max_sessions (length r'.sessions))) [
          | inl still ↦ rw (full, still) clean
          | inr room ↦ rw (full, room) (opened-Fate r' a a_addr b b_addr now id s ne clean)
        ]
      ]

  wrote-Fate :
      {r t : RelayService} (id : ℕ) (s : RelaySession)
      → Wrote r t
      → lookup id r.sessions ≡ some s
      → Fate t id s
  unfolding Fate
  wrote-Fate id s w e = inr (Wrote-Becomes id s w e)

  -- In one step a session is taken out or stays; then it keeps its id, goes from pending to active to closed
  -- and never back, and counts bytes only while it is active, always in balance. The step that creates a
  -- session under the same id, after the wrap of the ids, is left out.
  pub Step-Fate :
      (r t : RelayService) (id : ℕ) (s : RelaySession)
      → Step r t
      → IsRelay r
      → id ≢ r.next_session_id
      → lookup id r.sessions ≡ some s
      → Fate t id s
  Step-Fate r t id s (created a a_addr b b_addr now) inv ne e =
      created-Fate r a a_addr b b_addr now id s inv ne e
  Step-Fate r t id s (activation id' now e') inv ne e =
      wrote-Fate id s (activate-Wrote r t id' now e') e
  Step-Fate r t id s (relaying id' bytes from_a now e') inv ne e =
      wrote-Fate id s (relay-Wrote r t id' bytes from_a now e') e
  Step-Fate r t id s (closing id') inv ne e = elim (close-Wrote r id') [
    | inl same ↦ rw same (kept r id s e)
    | inr w ↦ wrote-Fate id s w e
  ]
  Step-Fate r t id s (cleaning now) inv ne e = cleaned-Fate r now id s inv e
