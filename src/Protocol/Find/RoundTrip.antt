-- ===== src/Protocol/Find/RoundTrip.antt =====
-- The messages of crates/ceky-protocol/src/dht.rs are read back as they were written.
use mathlib.Core.List.{append_assoc, append-nil}
use ceky_p2p.Common.{
  ℕ, zero, suc, ◌+◌, ◌^◌, ◌≤◌, ◌<◌, ◌≡◌, refl, sym, ◌∙◌, ap, arith, min, true, List, [], ◌∷◌, ◌++◌,
  leb, le→leb, length, length-append, length-take, take, All, All-take,
}
use ceky_p2p.Common.Bytes.{be_bytes, length-be_bytes}
use ceky_p2p.Common.Outcome.{ok, get_be}
use ceky_p2p.Common.Reader.{get_bytes-append, get_be-be_bytes}
use ceky_p2p.Protocol.Find.{
  DhtError, SocketAddr, v4, v6, read_peer_id, write_socket_addr, read_host, read_socket_addr,
  FindNode, encode_find, decode_find, PeerAddr, FindNodeResp, write_peers, encode_found, read_peers,
  decode_found,
}

-- An address with the octets of its family and a port of 16 bits.
abbrev pub IsAddr : SocketAddr → Type 0
IsAddr (v4 ip port) = (length ip ≡ 4) × (port < 2 ^ 16)
IsAddr (v6 ip port) = (length ip ≡ 16) × (port < 2 ^ 16)

-- A peer with an id of 32 bytes and such an address.
abbrev pub IsPeer : PeerAddr → Type 0
IsPeer p = (length p.0 ≡ 32) × IsAddr p.1

read_peer_id-append :
    (id rest : List ℕ) → length id ≡ 32 → read_peer_id (id ++ rest) ≡ ok (id, rest)
unfolding read_peer_id
read_peer_id-append id rest e =
    rw (le→leb 32 (length (id ++ rest)) (omega (arith, length-append id rest, e)))
      (get_bytes-append 32 id rest e)

read_host-append :
    (octets : ℕ) (make : List ℕ → ℕ → SocketAddr) (ip : List ℕ) (port : ℕ) (rest : List ℕ)
    → length ip ≡ octets
    → port < 2 ^ 16
    → read_host octets make (ip ++ (be_bytes 2 port ++ rest)) ≡ ok (make ip port, rest)
unfolding read_host
read_host-append octets make ip port rest e h =
    let tail = be_bytes 2 port ++ rest in
    let fits : octets + 2 ≤ length (ip ++ tail) = omega (
      arith,
      length-append ip tail,
      length-append (be_bytes 2 port) rest,
      length-be_bytes 2 port,
      e,
    ) in
    rw
      (
        le→leb (octets + 2) (length (ip ++ tail)) fits,
        get_bytes-append {E = DhtError} octets ip tail e,
        get_be-be_bytes {E = DhtError} 2 port rest (omega arith),
      )
      refl

regroup : (f ip port rest : List ℕ) → (f ++ (ip ++ port)) ++ rest ≡ f ++ (ip ++ (port ++ rest))
regroup f ip port rest = append_assoc f (ip ++ port) rest ∙ ap (◌++◌ f) (append_assoc ip port rest)

-- The byte of the family in front.
family-read :
    (family : ℕ) (rest : List ℕ)
    → family < 256 ^ 1
    → (leb 1 (length (be_bytes 1 family ++ rest)) ≡ true)
      × (get_be {E = DhtError} 1 (be_bytes 1 family ++ rest) ≡ ok (family, rest))
family-read family rest h = (
  le→leb 1 (length (be_bytes 1 family ++ rest))
      (omega (arith, length-append (be_bytes 1 family) rest, length-be_bytes 1 family)),
  get_be-be_bytes 1 family rest h,
)

read_socket_addr-append :
    (a : SocketAddr) (rest : List ℕ)
    → IsAddr a
    → read_socket_addr (write_socket_addr a ++ rest) ≡ ok (a, rest)
unfolding read_socket_addr write_socket_addr
read_socket_addr-append (v4 ip port) rest v =
    let host = ip ++ (be_bytes 2 port ++ rest) in
    let (long, got) = family-read 4 host (omega arith) in
    ap read_socket_addr (regroup (be_bytes 1 4) ip (be_bytes 2 port) rest)
    ∙ rw (read_socket_addr, long, got) (read_host-append 4 v4 ip port rest v.0 v.1)
read_socket_addr-append (v6 ip port) rest v =
    let host = ip ++ (be_bytes 2 port ++ rest) in
    let (long, got) = family-read 6 host (omega arith) in
    ap read_socket_addr (regroup (be_bytes 1 6) ip (be_bytes 2 port) rest)
    ∙ rw (read_socket_addr, long, got) (read_host-append 16 v6 ip port rest v.0 v.1)

read_peers-write_peers :
    (ps : List PeerAddr) → All IsPeer ps → read_peers (length ps) (write_peers ps) ≡ ok ps
unfolding read_peers write_peers
read_peers-write_peers [] v = refl
read_peers-write_peers (p ∷ ps) v =
    rw
      (
        read_peer_id-append p.0 (write_socket_addr p.1 ++ write_peers ps) v.0.0,
        read_socket_addr-append p.1 (write_peers ps) v.0.1,
        read_peers-write_peers ps v.1,
      )
      refl

take-min : (xs : List PeerAddr) (n : ℕ) → take (min (length xs) n) xs ≡ take n xs
take-min [] zero = refl
take-min [] (suc n) =
    let none_left : min 0 (suc n) ≡ 0 = omega arith in
    ap (λ (m : ℕ). take {A = PeerAddr} m []) none_left
take-min (x ∷ xs) zero =
    let nothing : min (suc (length xs)) 0 ≡ 0 = omega arith in
    ap (λ (m : ℕ). take m (x ∷ xs)) nothing
take-min (x ∷ xs) (suc n) =
    let one : min (suc (length xs)) (suc n) ≡ suc (min (length xs) n) = omega arith in
    ap (λ (m : ℕ). take m (x ∷ xs)) one ∙ ap (◌∷◌ x) (take-min xs n)

-- A request is read back.
pub decode_find-encode_find :
    (f : FindNode) → length f.target ≡ 32 → decode_find (encode_find f) ≡ ok f
unfolding decode_find encode_find
decode_find-encode_find f e =
    rw
      (
        le→leb 33 (length (be_bytes 1 1 ++ f.target))
            (omega (arith, length-append (be_bytes 1 1) f.target, length-be_bytes 1 1, e)),
        get_be-be_bytes {E = DhtError} 1 1 f.target (omega arith),
        ap read_peer_id (sym (append-nil f.target)) ∙ read_peer_id-append f.target [] e,
      )
      refl

-- Of an answer the first 255 peers are read back, each with its address of either family, if every peer has an id of 32 bytes and an
-- address with the octets of its family and a port of 16 bits.
pub decode_found-encode_found :
    (r : FindNodeResp)
    → All IsPeer r.peers
    → decode_found (encode_found r) ≡ ok (record { peers = take 255 r.peers })
unfolding decode_found encode_found
decode_found-encode_found r v =
    let count = min (length r.peers) 255 in
    let ps = take count r.peers in
    let body = be_bytes 1 count ++ write_peers ps in
    let long : 2 ≤ length (be_bytes 1 1 ++ body) = omega (
      arith,
      length-append (be_bytes 1 1) body,
      length-append (be_bytes 1 count) (write_peers ps),
      length-be_bytes 1 1,
      length-be_bytes 1 count,
    ) in
    let size : length ps ≡ count = omega (arith, length-take count r.peers) in
    let read : read_peers count (write_peers ps) ≡ ok ps =
      ap (λ (n : ℕ). read_peers n (write_peers ps)) (sym size)
      ∙ read_peers-write_peers ps (All-take IsPeer count r.peers v) in
    rw
      (
        le→leb 2 (length (be_bytes 1 1 ++ body)) long,
        get_be-be_bytes {E = DhtError} 1 1 body (omega arith),
        get_be-be_bytes {E = DhtError} 1 count (write_peers ps) (omega arith),
        read,
        take-min r.peers 255,
      )
      refl
