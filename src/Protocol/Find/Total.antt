-- ===== src/Protocol/Find/Total.antt =====
-- No decoder of crates/ceky-protocol/src/dht.rs panics, whatever the bytes.
use ceky_p2p.Common.{
  ℕ, zero, suc, ◌+◌, arith, ◌==◌, List, length, leb, Bool-cases, inl, inr, if◌then◌else◌,
}
use ceky_p2p.Common.Outcome.{err}
use ceky_p2p.Common.Reader.{
  Safe, bind-Safe, get_bytes-Safe, guard-Safe, get_be-then, get_bytes-then, ensured, known-Safe,
}
use ceky_p2p.Protocol.Find.{
  unsupported_version, buffer_too_short, invalid_address_family, SocketAddr, v4, v6, read_peer_id,
  read_host, read_socket_addr, decode_find, read_peers, decode_found,
}

read_peer_id-Safe : (buf : List ℕ) → Safe (read_peer_id buf)
unfolding read_peer_id
read_peer_id-Safe buf =
    guard-Safe (leb 32 (length buf)) (buffer_too_short 32 (length buf)) _
      (λ h. get_bytes-Safe 32 buf (ensured 32 buf h))

read_host-Safe :
    (octets : ℕ) (make : List ℕ → ℕ → SocketAddr) (buf : List ℕ) → Safe (read_host octets make buf)
unfolding read_host
read_host-Safe octets make buf =
    guard-Safe (leb (octets + 2) (length buf)) (buffer_too_short (octets + 2) (length buf)) _ (λ g.
      let long = ensured (octets + 2) buf g in
      get_bytes-then octets buf _ (omega (arith, long))
        (λ ip h1. get_be-then 2 ip.1 _ (omega (arith, long, h1)) (λ port h2. λ e. cc)))

read_socket_addr-Safe : (buf : List ℕ) → Safe (read_socket_addr buf)
unfolding read_socket_addr
read_socket_addr-Safe buf =
    guard-Safe (leb 1 (length buf)) (buffer_too_short 1 (length buf)) _
      (λ g. get_be-then 1 buf _ (ensured 1 buf g) (λ family h1. by_family family.0 family.1))
  where
    by_family :
        (f : ℕ) (rest : List ℕ)
        → Safe (
            if f == 4
            then read_host 4 v4 rest
            else (if f == 6 then read_host 16 v6 rest else err (invalid_address_family f)))
    by_family f rest = elim (Bool-cases (f == 4)) [
      | inl four ↦ rw four (read_host-Safe 4 v4 rest)
      | inr other ↦ elim (Bool-cases (f == 6)) [
        | inl six ↦ rw (other, six) (read_host-Safe 16 v6 rest)
        | inr neither ↦ rw (other, neither) (λ e. cc)
      ]
    ]

read_peers-Safe : (n : ℕ) (buf : List ℕ) → Safe (read_peers n buf)
unfolding read_peers
read_peers-Safe zero buf = λ e. cc
read_peers-Safe (suc n) buf = bind-Safe (read_peer_id buf) _ (read_peer_id-Safe buf) (λ id h1.
    bind-Safe (read_socket_addr id.1) _ (read_socket_addr-Safe id.1)
      (λ addr h2. known-Safe (read_peers n addr.1) _ (read_peers-Safe n addr.1)))

-- Whatever the bytes, neither decoder panics.
decode_find-Safe : (p : List ℕ) → Safe (decode_find p) × Safe (decode_found p)
unfolding decode_find decode_found
decode_find-Safe p = (
  guard-Safe (leb 33 (length p)) (buffer_too_short 33 (length p)) _ (λ g.
      get_be-then 1 p _ (omega (arith, ensured 33 p g)) (λ version h1.
        guard-Safe (version.0 == 1) (unsupported_version version.0) _
          (λ same. known-Safe (read_peer_id version.1) _ (read_peer_id-Safe version.1)))),
  guard-Safe (leb 2 (length p)) (buffer_too_short 2 (length p)) _ (λ g.
      let long = ensured 2 p g in
      get_be-then 1 p _ (omega (arith, long)) (λ version h1.
        guard-Safe (version.0 == 1) (unsupported_version version.0) _ (λ same.
          get_be-then 1 version.1 _ (omega (arith, long, h1)) (λ count h2.
            known-Safe (read_peers count.0 count.1) _ (read_peers-Safe count.0 count.1))))),
)
