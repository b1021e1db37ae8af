-- ===== src/Nat/Relay/Steps.antt =====
-- The relay service of crates/ceky-nat/src/relay.rs : how the operations on one session change it.
use ceky_p2p.Common.{
  ℕ, ◌≤◌, ◌<◌, ◌≡◌, ◌⊎◌, refl, sym, ◌∙◌, ap, arith, Bool, true, false, inl, inr, some, length,
  Bool-cases, Option-cases, leb,
}
use mathlib.Core.Option.{some-injective}
use native.Mathlib.Decide.{ℕ_discrete}
use ceky_p2p.Common.Outcome.{Outcome, ok, ok-injective, bind-ok}
use ceky_p2p.Common.Float.{Float}
use ceky_p2p.Common.Maps.{
  lookup, assign, lookup-assign_self, lookup-assign_ne, length-assign, length-assign_present,
  assign-IsMap, All-assign, All-lookup,
}
use ceky_p2p.Crypto.PeerId.{PeerId}
use ceky_p2p.Nat.Relay.{
  NatError, RelayConfig, RelaySessionState, pending, active, closed, is_pending, is_active,
  RelaySession, RelayService, new_relay_peer, cleanup_expired, opened_session, create_session,
  with_session, activated, relayed, counted, over_limit,
}
use ceky_p2p.Nat.Relay.Sessions.{Balanced, IsEntry, IsRelay, cleanup_expired-IsRelay}

-- How far a session is in its life.
abbrev pub rank : RelaySessionState → ℕ
rank pending = 0
rank active = 1
rank closed = 2

-- A session may become this one: it does not go back, and bytes are counted only while it is active.
unfoldable pub Becomes : RelaySession → RelaySession → Type 0
Becomes s t =
    (t.session_id ≡ s.session_id)
    × (rank s.state ≤ rank t.state)
    × ((t.bytes_relayed ≡ s.bytes_relayed) ⊎ ((s.state ≡ active) × (t.state ≡ active)))
    × (Balanced s → Balanced t)

pub activated-Becomes : (now : ℕ) (s t : RelaySession) → activated now s ≡ ok t → Becomes s t
unfolding activated Becomes
activated-Becomes now s t e = elim (Bool-cases (is_pending s.state)) [
  | inr other ↦ cc (rw other at e)
  | inl waiting ↦
      let same : ◌≡◌ {A = RelaySession} (record s { state = active; last_activity = now }) t =
        ok-injective (rw waiting at e) in
      rw (← same) (refl, ground (arith, waiting), inl refl, λ b. b)
]

counted-Becomes :
    (bytes : ℕ) (from_a : Bool) (now : ℕ) (s : RelaySession)
    → s.state ≡ active
    → Becomes s (counted bytes from_a now s)
unfolding counted Becomes
counted-Becomes bytes true now s run = (
  refl,
  omega arith,
  inr (run, run),
  λ b. (omega (arith, b.0), b.1, omega (arith, b.0, b.1, b.2)),
)
counted-Becomes bytes false now s run = (
  refl,
  omega arith,
  inr (run, run),
  λ b. (b.0, omega (arith, b.1), omega (arith, b.0, b.1, b.2)),
)

pub closed-Becomes : (s : RelaySession) → Becomes s (record s { state = closed })
unfolding Becomes
closed-Becomes s = (
  refl,
  elim s.state as (λ x. rank x ≤ 2) [
    | pending ↦ omega arith
    | active ↦ omega arith
    | closed ↦ omega arith
  ],
  inl refl,
  λ b. b,
)

pub Becomes-refl : (s : RelaySession) → Becomes s s
unfolding Becomes
Becomes-refl s = (refl, omega arith, inl refl, λ b. b)

-- A write to a session that is there.
pub data Wrote (r : RelayService) : RelayService → Type 0 where
  wrote :
      (id : ℕ) (s t : RelaySession)
      → lookup id r.sessions ≡ some s
      → Becomes s t
      → Wrote r (record r { sessions = assign id t r.sessions })

pub with_session-Wrote :
    (r : RelayService) (id : ℕ) (f : RelaySession → Outcome NatError RelaySession)
    (t : RelayService)
    → ((s s' : RelaySession) → f s ≡ ok s' → Becomes s s')
    → with_session r id f ≡ ok t
    → Wrote r t
with_session-Wrote r id f t good e = elim (Option-cases (lookup id r.sessions)) [
  | inl absent ↦ cc (rw (with_session, absent) at e)
  | inr (s, found) ↦
      let (s', e', e'') =
        bind-ok (f s) (λ x. ok (record r { sessions = assign id x r.sessions })) t
          (rw (with_session, found) at e) in
      rw (← ok-injective e'') (wrote id s s' found (good s s' e'))
]

pub Wrote-IsRelay : {r t : RelayService} → Wrote r t → IsRelay r → IsRelay t
unfolding IsRelay Becomes
Wrote-IsRelay {r} (wrote id s t found becomes) inv =
    let entry = All-lookup IsEntry id s r.sessions inv.1 found in
    (
      assign-IsMap id t r.sessions inv.0,
      All-assign IsEntry id t r.sessions inv.1 (becomes.0 ∙ entry.0, becomes.3 entry.1),
      omega (arith, length-assign_present id t s r.sessions found, inv.2),
    )

pub Wrote-Becomes :
    {r t : RelayService} (id : ℕ) (s : RelaySession)
    → Wrote r t
    → lookup id r.sessions ≡ some s
    → (s' : RelaySession) × (lookup id t.sessions ≡ some s') × Becomes s s'
Wrote-Becomes {r} id s (wrote id' s' t found becomes) e = elim (ℕ_discrete id' id) [
  | yes same ↦
      let s_is : s' ≡ s =
        some-injective s' s (sym found ∙ ap (λ (x : ℕ). lookup x r.sessions) same ∙ e) in
      (
        t,
        ap (λ (x : ℕ). lookup id (assign x t r.sessions)) same ∙ lookup-assign_self id t r.sessions,
        rw (← s_is) becomes,
      )
  | no other ↦ (s, lookup-assign_ne id id' t r.sessions other ∙ e, Becomes-refl s)
]

opened-IsRelay :
    (r : RelayService) (a : PeerId) (a_addr : ℕ) (b : PeerId) (b_addr now : ℕ)
    → IsRelay r
    → length r.sessions < r.config.max_sessions
    → IsRelay (opened_session r a a_addr b b_addr now).0
unfolding IsRelay opened_session
opened-IsRelay r a a_addr b b_addr now inv room =
    let id = r.next_session_id in
    let s : RelaySession = record {
      session_id = id;
      peer_a = new_relay_peer a a_addr;
      peer_b = new_relay_peer b b_addr;
      created_at = now;
      last_activity = now;
      bytes_relayed = 0;
      state = pending;
    } in
    (
      assign-IsMap id s r.sessions inv.0,
      All-assign IsEntry id s r.sessions inv.1 (refl, (refl, refl, omega arith)),
      omega (arith, length-assign id s r.sessions, room),
    )

pub create-IsRelay :
    (r : RelayService) (a : PeerId) (a_addr : ℕ) (b : PeerId) (b_addr now : ℕ)
    → IsRelay r
    → IsRelay (create_session r a a_addr b b_addr now).0
unfolding create_session
create-IsRelay r a a_addr b b_addr now inv =
    let clean = cleanup_expired-IsRelay r now inv in
    let r' = (cleanup_expired r now).0 in
    elim (Bool-cases (leb r.config.max_sessions (length r.sessions))) [
      | inr room ↦ rw room (opened-IsRelay r a a_addr b b_addr now inv (ground (arith, room)))
      | inl full ↦ elim (Bool-cases (leb r'.config.max_sessions (length r'.sessions))) [
        | inl still ↦ rw (full, still) clean
        | inr room ↦
            rw (full, room) (opened-IsRelay r' a a_addr b b_addr now clean (ground (arith, room)))
      ]
    ]

module _ (float : Float) where
  pub relayed-Becomes :
      (config : RelayConfig) (bytes : ℕ) (from_a : Bool) (now : ℕ) (s t : RelaySession)
      → relayed float config bytes from_a now s ≡ ok t
      → Becomes s t
  unfolding relayed
  relayed-Becomes config bytes from_a now s t e = elim (Bool-cases (is_active s.state)) [
    | inr other ↦ cc (rw other at e)
    | inl run ↦ elim (Bool-cases (over_limit float config now s)) [
      | inl over ↦ cc (rw (run, over) at e)
      | inr fits ↦
          let same : counted bytes from_a now s ≡ t = ok-injective (rw (run, fits) at e) in
          rw (← same) (counted-Becomes bytes from_a now s (ground (arith, run)))
    ]
  ]
