-- ===== src/Transport/Pool/Steps.antt =====
-- The pool of crates/ceky-transport/src/pool.rs as a step relation, and the counters that it keeps.
use ceky_p2p.Common.{
  ℕ, ◌+◌, ◌%◌, ◌^◌, ◌≤◌, ◌≡◌, refl, sym, arith, subst, inl, inr, none, some, List, [], ◌∷◌, length,
  leb, Bool-cases, Option-cases,
}
use ceky_p2p.Common.Outcome.{ok, ok-injective}
use ceky_p2p.Common.Maps.{
  lookup, assign, erase, IsMap, assign-IsMap, erase-IsMap, length-assign_present,
  length-assign_absent, length-erase_present,
}
use ceky_p2p.Transport.Connection.{ConnectionConfig, ConnectionInfo, new_connection}
use ceky_p2p.Transport.Pool.{
  ConnectionPool, new_pool, insert, remove, with_connection, remove_each, evict_idle, evict_dead,
}

-- One call.
pub data Step (p : ConnectionPool) : ConnectionPool → Type 0 where
  inserted : (addr now : ℕ) {q : ConnectionPool} → insert p addr now ≡ ok q → Step p q
  removed : (addr : ℕ) → Step p (remove p addr).0
  written : (addr : ℕ) (f : ConnectionInfo → ConnectionInfo) → Step p (with_connection p addr f)
  idle_evicted : (max_idle now : ℕ) → Step p (evict_idle p max_idle now).0
  dead_evicted : (now : ℕ) → Step p (evict_dead p now).0

pub data Reachable (max_connections : ℕ) (config : ConnectionConfig) : ConnectionPool → Type 0 where
  empty : Reachable max_connections config (new_pool max_connections config)
  after :
      {p q : ConnectionPool}
      → Reachable max_connections config p
      → Step p q
      → Reachable max_connections config q

-- No address twice, at most the maximum, and the connections are those created and not removed.
pub IsPool : ConnectionPool → Type 0
IsPool p =
    IsMap p.connections
    × (length p.connections ≤ p.max_connections)
    × ((p.total_removed + length p.connections) % 2 ^ 64 ≡ p.total_created)

insert-IsPool :
    (p q : ConnectionPool) (addr now : ℕ) → insert p addr now ≡ ok q → IsPool p → IsPool q
unfolding insert IsPool
insert-IsPool p q addr now e inv =
    elim (Bool-cases (leb p.max_connections (length p.connections))) [
      | inl full ↦ cc (rw full at e)
      | inr room ↦ elim (Option-cases (lookup addr p.connections)) [
        | inr (c, found) ↦ rw (← ok-injective (rw (room, found) at e)) inv
        | inl absent ↦
            let c = new_connection addr p.default_config now in
            let len = length-assign_absent addr c p.connections absent in
            rw (← ok-injective (rw (room, absent) at e)) (
              assign-IsMap addr c p.connections inv.0,
              ground (arith, len, room),
              omega (arith, len, inv.2),
            )
      ]
    ]

remove_absent :
    (p : ConnectionPool) (addr : ℕ) → lookup addr p.connections ≡ none → remove p addr ≡ (p, none)
unfolding remove
remove_absent p addr h = rw (remove, h) refl

remove_present :
    (p : ConnectionPool) (addr : ℕ) (c : ConnectionInfo)
    → lookup addr p.connections ≡ some c
    → remove p addr ≡ (
      record p {
        connections = erase addr p.connections;
        total_removed = (p.total_removed + 1) % 2 ^ 64;
      },
      some c,
    )
unfolding remove
remove_present p addr c h = rw (remove, h) refl

write_absent :
    (p : ConnectionPool) (addr : ℕ) (f : ConnectionInfo → ConnectionInfo)
    → lookup addr p.connections ≡ none
    → with_connection p addr f ≡ p
unfolding with_connection
write_absent p addr f h = rw (with_connection, h) refl

write_present :
    (p : ConnectionPool) (addr : ℕ) (f : ConnectionInfo → ConnectionInfo) (c : ConnectionInfo)
    → lookup addr p.connections ≡ some c
    → with_connection p addr f ≡ record p { connections = assign addr (f c) p.connections }
unfolding with_connection
write_present p addr f c h = rw (with_connection, h) refl

remove-IsPool : (p : ConnectionPool) (addr : ℕ) → IsPool p → IsPool (remove p addr).0
unfolding IsPool
remove-IsPool p addr inv = elim (Option-cases (lookup addr p.connections)) [
  | inl absent ↦ rw (remove_absent p addr absent) inv
  | inr (c, found) ↦
      let len = length-erase_present addr c p.connections found in
      rw (remove_present p addr c found)
        (erase-IsMap addr p.connections inv.0, omega (arith, len, inv.1), omega (arith, len, inv.2))
]

with_connection-IsPool :
    (p : ConnectionPool) (addr : ℕ) (f : ConnectionInfo → ConnectionInfo)
    → IsPool p
    → IsPool (with_connection p addr f)
unfolding IsPool
with_connection-IsPool p addr f inv = elim (Option-cases (lookup addr p.connections)) [
  | inl absent ↦ subst IsPool (sym (write_absent p addr f absent)) inv
  | inr (c, found) ↦
      let len = length-assign_present addr (f c) c p.connections found in
      subst IsPool (sym (write_present p addr f c found)) (
        assign-IsMap addr (f c) p.connections inv.0,
        omega (arith, len, inv.1),
        omega (arith, len, inv.2),
      )
]

remove_each-IsPool : (addrs : List ℕ) (p : ConnectionPool) → IsPool p → IsPool (remove_each addrs p)
unfolding remove_each
remove_each-IsPool [] p inv = inv
remove_each-IsPool (a ∷ addrs) p inv =
    remove_each-IsPool addrs (remove p a).0 (remove-IsPool p a inv)

Step-IsPool : (p q : ConnectionPool) → Step p q → IsPool p → IsPool q
unfolding evict_idle evict_dead
Step-IsPool p q (inserted addr now e) inv = insert-IsPool p q addr now e inv
Step-IsPool p q (removed addr) inv = remove-IsPool p addr inv
Step-IsPool p q (written addr f) inv = with_connection-IsPool p addr f inv
Step-IsPool p q (idle_evicted max_idle now) inv =
    remove_each-IsPool (evict_idle p max_idle now).1 p inv
Step-IsPool p q (dead_evicted now) inv = remove_each-IsPool (evict_dead p now).1 p inv

-- Every pool that calls reach one after the other holds no address twice and no more connections than its
-- maximum, and their number is that of the created less the removed, up to the wrap of the counters.
pub Reachable-IsPool :
    {max_connections : ℕ} {config : ConnectionConfig} {p : ConnectionPool}
    → Reachable max_connections config p
    → IsPool p
unfolding IsPool
Reachable-IsPool empty = (tt, omega arith, refl)
Reachable-IsPool (after {p} {q} reach step) = Step-IsPool p q step (Reachable-IsPool reach)
