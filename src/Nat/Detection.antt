-- ===== src/Nat/Detection.antt =====
-- crates/ceky-nat/src/detection.rs: the kind of NAT from what the STUN probes give, which is an
-- argument. The texts of the kinds are left out.
use ceky_p2p.Common.{
  ℕ, ◌≡◌, refl, Bool, true, false, not, ◌&&◌, Option, none, some, ◌==◌, if◌then◌else◌,
}
use ceky_p2p.Common.Outcome.{Outcome, ok, err, panic}
use ceky_p2p.Crypto.PeerId.{id_eq}
use ceky_p2p.Protocol.Find.{SocketAddr, v4, v6}
use ceky_p2p.Nat.Relay.{NatError}
use ceky_p2p.Nat.Stun.{StunResult}

-- `None` is written no_nat.
pub data NatType : Type 0 where
  no_nat full_cone restricted port_restricted symmetric unknown : NatType

pub supports_hole_punch : NatType → Bool
supports_hole_punch no_nat = true
supports_hole_punch full_cone = true
supports_hole_punch restricted = true
supports_hole_punch port_restricted = true
supports_hole_punch symmetric = false
supports_hole_punch unknown = false

pub record NatInfo : Type 0 where
  pub nat_type : NatType
  pub external_addr : Option SocketAddr
  pub local_addr : SocketAddr
  pub hole_punch_capable : Bool

-- `a.ip() == b.ip()`
abbrev pub same_ip : SocketAddr → SocketAddr → Bool
same_ip (v4 a p) (v4 b q) = id_eq a b
same_ip (v4 a p) (v6 b q) = false
same_ip (v6 a p) (v4 b q) = false
same_ip (v6 a p) (v6 b q) = id_eq a b

abbrev pub port_of : SocketAddr → ℕ
port_of (v4 ip port) = port
port_of (v6 ip port) = port

-- `detect`, with what `discover` gives.
pub detect : SocketAddr → Outcome NatError StunResult → Outcome NatError NatInfo
unfolding supports_hole_punch
detect local_addr (ok result) = ok (
    let mapped = result.mapped_addr in
    if same_ip mapped local_addr && port_of mapped == port_of local_addr
    then record {
      nat_type = no_nat;
      external_addr = some mapped;
      local_addr = local_addr;
      hole_punch_capable = true;
    }
    else record {
      nat_type = restricted;
      external_addr = some mapped;
      local_addr = local_addr;
      hole_punch_capable = supports_hole_punch restricted;
    })
detect local_addr (err e) = ok (record {
  nat_type = unknown;
  external_addr = none;
  local_addr = local_addr;
  hole_punch_capable = false;
})
detect local_addr panic = panic

-- Where both probes give the same host, the ports decide.
pub classify : SocketAddr → StunResult → Option StunResult → NatType
classify local_addr probe1 probe2 =
    if same_ip probe1.mapped_addr local_addr then no_nat else elim probe2 [
      | none ↦ restricted
      | some p2 ↦
          let a = probe1.mapped_addr in
          let b = p2.mapped_addr in
          if same_ip a b && port_of a == port_of b
          then restricted
          else (if same_ip a b && not (port_of a == port_of b) then port_restricted else symmetric)
    ]

-- A node whose probe succeeds is never found to be behind a symmetric NAT and always reports that hole
-- punching is feasible, also where a second probe with another host would tell it that the NAT is
-- symmetric.
detect-ne-classify :
    (local_addr : SocketAddr) (probe1 probe2 : StunResult)
    → same_ip probe1.mapped_addr local_addr ≡ false
    → same_ip probe1.mapped_addr probe2.mapped_addr ≡ false
    → (classify local_addr probe1 (some probe2) ≡ symmetric)
      × (supports_hole_punch (classify local_addr probe1 (some probe2)) ≡ false)
      × (detect local_addr (ok probe1)
          ≡ ok (record {
            nat_type = restricted;
            external_addr = some probe1.mapped_addr;
            local_addr = local_addr;
            hole_punch_capable = true;
          }))
unfolding classify detect supports_hole_punch
detect-ne-classify local_addr probe1 probe2 apart moved =
    (rw (apart, moved) refl, rw (apart, moved) refl, rw apart refl)
