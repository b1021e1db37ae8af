-- ===== src/Nat/Stun.antt =====
-- crates/ceky-nat/src/stun.rs: the binding request, and the response with the mapped address. The
-- socket is left out: what a probe of a server gives is an argument, and so is the clock.
pub mod Ends
pub mod Mapped
pub mod Shown
mod Tests
use ceky_p2p.Common.{
  ℕ, zero, suc, ◌+◌, ◌*◌, ◌/◌, ◌%◌, ◌^◌, ◌⊎◌, inl, inr, bit_xor, true, false, Option, none, some,
  List, [], ◌∷◌, ◌++◌, leb, ◌==◌, if◌then◌else◌, length,
}
use ceky_p2p.Common.Bytes.{be_bytes, le_bytes}
use ceky_p2p.Common.Outcome.{Outcome, ok, err, panic, guard, read_be, slice, ◌>>=◌, ◌>>◌}
use ceky_p2p.Crypto.PeerId.{id_eq, xor_distance}
use ceky_p2p.Protocol.Find.{SocketAddr, v4}
use ceky_p2p.Nat.Relay.{NatError, stun_failed, no_stun_servers}

abbrev pub magic_cookie : ℕ
magic_cookie = 0x2112A442

abbrev pub binding_request : ℕ
binding_request = 0x0001

abbrev pub binding_response : ℕ
binding_response = 0x0101

abbrev pub attr_mapped_address : ℕ
attr_mapped_address = 0x0001

abbrev pub attr_xor_mapped_address : ℕ
attr_xor_mapped_address = 0x0020

abbrev pub stun_header_size : ℕ
stun_header_size = 20

pub record StunResult : Type 0 where
  pub mapped_addr : SocketAddr
  pub server_addr : SocketAddr

-- Byte i is byte i of the clock's nanoseconds, lowest first.
pub generate_transaction_id : ℕ → List ℕ
generate_transaction_id seed = le_bytes 12 seed

pub build_binding_request : List ℕ → List ℕ
build_binding_request txn_id =
    be_bytes 2 binding_request ++ (be_bytes 2 0 ++ (be_bytes 4 magic_cookie ++ txn_id))

pub parse_mapped_address : List ℕ → Outcome NatError SocketAddr
parse_mapped_address bytes = do
  guard (leb 8 (length bytes)) stun_failed
  family ← read_be 1 bytes 1
  port ← read_be 2 bytes 2
  guard (family == 1) stun_failed
  ip ← slice 4 8 bytes
  ok (v4 ip port)

pub parse_xor_mapped_address : List ℕ → Outcome NatError SocketAddr
parse_xor_mapped_address bytes = do
  guard (leb 8 (length bytes)) stun_failed
  family ← read_be 1 bytes 1
  xor_port ← read_be 2 bytes 2
  guard (family == 1) stun_failed
  ip ← slice 4 8 bytes
  ok (v4 (xor_distance ip (be_bytes 4 magic_cookie)) (bit_xor xor_port (magic_cookie / 2 ^ 16)))

-- The value of an attribute of either kind, or the offset of the next attribute.
pub attribute_value : ℕ → ℕ → ℕ → List ℕ → Outcome NatError (ℕ ⊎ SocketAddr)
unfolding parse_mapped_address parse_xor_mapped_address
attribute_value attr_type attr_len offset bytes =
    if attr_type == attr_xor_mapped_address
    then (slice offset (offset + attr_len) bytes >>= λ value.
        parse_xor_mapped_address value >>= λ addr. ok (inr addr))
    else (if attr_type == attr_mapped_address
        then (slice offset (offset + attr_len) bytes >>= λ value.
            parse_mapped_address value >>= λ addr. ok (inr addr))
        else ok (inl (offset + (attr_len + 3) / 4 * 4)))

-- The attribute at an offset.
attribute : List ℕ → ℕ → ℕ → Outcome NatError (ℕ ⊎ SocketAddr)
unfolding attribute_value
attribute bytes offset end = do
  attr_type ← read_be 2 bytes offset
  attr_len ← read_be 2 bytes (offset + 2)
  guard (leb (offset + 4 + attr_len) end) stun_failed
  attribute_value attr_type attr_len (offset + 4) bytes

go_on :
    (ℕ → Option (Outcome NatError SocketAddr))
    → Outcome NatError (ℕ ⊎ SocketAddr)
    → Option (Outcome NatError SocketAddr)
go_on next (ok (inl offset)) = next offset
go_on next (ok (inr addr)) = some (ok addr)
go_on next (err e) = some (err e)
go_on next panic = some panic

-- The loop over the attributes; nothing when the fuel is used up.
pub attributes : ℕ → List ℕ → ℕ → ℕ → Option (Outcome NatError SocketAddr)
unfolding attribute go_on
attributes zero bytes offset end = none
attributes (suc fuel) bytes offset end = elim (leb (offset + 4) end) [
  | true ↦ go_on (λ next. attributes fuel bytes next end) (attribute bytes offset end)
  | false ↦ some (err stun_failed)
]

pub looped : Option (Outcome NatError SocketAddr) → Outcome NatError SocketAddr
looped none = panic
looped (some r) = r

pub parse_binding_response : List ℕ → List ℕ → Outcome NatError SocketAddr
unfolding attributes looped
parse_binding_response bytes expected_txn_id = do
  guard (leb stun_header_size (length bytes)) stun_failed
  msg_type ← read_be 2 bytes 0
  guard (msg_type == binding_response) stun_failed
  cookie ← read_be 4 bytes 4
  guard (cookie == magic_cookie) stun_failed
  txn_id ← slice 8 20 bytes
  guard (id_eq txn_id expected_txn_id) stun_failed
  msg_len ← read_be 2 bytes 2
  guard (leb (stun_header_size + msg_len) (length bytes)) stun_failed
  looped (attributes (length bytes) bytes stun_header_size (stun_header_size + msg_len))

-- The servers one after the other, where probe says what becomes of each.
try_each :
    (SocketAddr → Outcome NatError StunResult) → List SocketAddr → Outcome NatError StunResult
try_each probe [] = err stun_failed
try_each probe (server ∷ servers) = elim (probe server) [
  | ok result ↦ ok result
  | err e ↦ try_each probe servers
  | panic ↦ panic
]

pub discover :
    (SocketAddr → Outcome NatError StunResult) → List SocketAddr → Outcome NatError StunResult
unfolding try_each
discover probe [] = err no_stun_servers
discover probe (server ∷ servers) = try_each probe (server ∷ servers)

-- What a probe makes of the answer from an address.
pub probed : List ℕ → SocketAddr → List ℕ → Outcome NatError StunResult
unfolding parse_binding_response
probed txn_id from response = do
  mapped_addr ← parse_binding_response response txn_id
  ok (record { mapped_addr = mapped_addr; server_addr = from })

abbrev pub default_stun_servers : List SocketAddr
default_stun_servers =
    v4 (74 ∷ 125 ∷ 250 ∷ 129 ∷ []) 19302 ∷ v4 (64 ∷ 233 ∷ 163 ∷ 127 ∷ []) 19302 ∷ []
