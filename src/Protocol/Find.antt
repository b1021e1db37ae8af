-- ===== src/Protocol/Find.antt =====
-- crates/ceky-protocol/src/dht.rs: the messages that ask for peers and answer with them. A `Bytes` buffer
-- and a peer id are the lists of their bytes.
pub mod RoundTrip
pub mod Total
mod Tests
use ceky_p2p.Common.{
  ℕ, zero, suc, ◌+◌, Bool, List, [], ◌∷◌, ◌++◌, leb, ◌==◌, if◌then◌else◌, length, take, min,
}
use ceky_p2p.Common.Bytes.{be_bytes}
use ceky_p2p.Common.Outcome.{Outcome, ok, err, ◌>>=◌, ◌>>◌, guard, get_be, get_bytes}

abbrev pub dht_version : ℕ
dht_version = 1

pub data DhtError : Type 0 where
  unsupported_version : ℕ → DhtError
  buffer_too_short : ℕ → ℕ → DhtError
  invalid_address_family : ℕ → DhtError

-- The octets of the host and the port.
pub data SocketAddr : Type 0 where
  v4 : List ℕ → ℕ → SocketAddr
  v6 : List ℕ → ℕ → SocketAddr

abbrev pub ensure_remaining : ℕ → List ℕ → Outcome DhtError (Unit {0})
ensure_remaining needed buf = guard (leb needed (length buf)) (buffer_too_short needed (length buf))

unfoldable pub read_peer_id : List ℕ → Outcome DhtError (List ℕ × List ℕ)
read_peer_id buf = do ensure_remaining 32 buf; get_bytes 32 buf

unfoldable pub write_socket_addr : SocketAddr → List ℕ
write_socket_addr (v4 ip port) = be_bytes 1 4 ++ (ip ++ be_bytes 2 port)
write_socket_addr (v6 ip port) = be_bytes 1 6 ++ (ip ++ be_bytes 2 port)

-- An address of a family whose hosts have the given number of octets.
unfoldable pub read_host :
    ℕ → (List ℕ → ℕ → SocketAddr) → List ℕ → Outcome DhtError (SocketAddr × List ℕ)
read_host octets make buf = do
  ensure_remaining (octets + 2) buf
  (ip, buf) ← get_bytes octets buf
  (port, buf) ← get_be 2 buf
  ok (make ip port, buf)

unfoldable pub read_socket_addr : List ℕ → Outcome DhtError (SocketAddr × List ℕ)
unfolding read_host
read_socket_addr buf = do
  ensure_remaining 1 buf
  (family, buf) ← get_be 1 buf
  (if family == 4
      then read_host 4 v4 buf
      else (if family == 6 then read_host 16 v6 buf else err (invalid_address_family family)))

pub record FindNode : Type 0 where
  pub target : List ℕ

unfoldable pub encode_find : FindNode → List ℕ
encode_find f = be_bytes 1 dht_version ++ f.target

unfoldable pub decode_find : List ℕ → Outcome DhtError FindNode
unfolding read_peer_id
decode_find payload = do
  ensure_remaining 33 payload
  (version, buf) ← get_be 1 payload
  guard (version == dht_version) (unsupported_version version)
  (target, _) ← read_peer_id buf
  ok (record { target = target })

abbrev pub PeerAddr : Type 0
PeerAddr = List ℕ × SocketAddr

pub record FindNodeResp : Type 0 where
  pub peers : List PeerAddr

unfoldable pub write_peers : List PeerAddr → List ℕ
unfolding write_socket_addr
write_peers [] = []
write_peers (p ∷ ps) = p.0 ++ (write_socket_addr p.1 ++ write_peers ps)

-- At most 255 peers are written.
unfoldable pub encode_found : FindNodeResp → List ℕ
unfolding write_peers
encode_found r =
    let count = min (length r.peers) 255 in
    be_bytes 1 dht_version ++ (be_bytes 1 count ++ write_peers (take count r.peers))

-- The loop over the announced number of peers.
unfoldable pub read_peers : ℕ → List ℕ → Outcome DhtError (List PeerAddr)
unfolding read_peer_id read_socket_addr
read_peers zero buf = ok []
read_peers (suc n) buf = do
  (id, buf) ← read_peer_id buf
  (addr, buf) ← read_socket_addr buf
  peers ← read_peers n buf
  ok ((id, addr) ∷ peers)

unfoldable pub decode_found : List ℕ → Outcome DhtError FindNodeResp
unfolding read_peers
decode_found payload = do
  ensure_remaining 2 payload
  (version, buf) ← get_be 1 payload
  guard (version == dht_version) (unsupported_version version)
  (count, buf) ← get_be 1 buf
  peers ← read_peers count buf
  ok (record { peers = peers })
