-- ===== src/Lib.antt =====
-- cekyP2P, a peer-to-peer stack: sessions and identities (crates/ceky-crypto), frames and messages
-- on the wire (crates/ceky-protocol), file transfers (crates/ceky-transfer), the distributed hash
-- table and what a node stores (crates/ceky-dht), finding one's own address and relaying
-- (crates/ceky-nat), and connections (crates/ceky-transport). Frames carry the messages of the DHT
-- and of file transfers; a handshake gives the keys of a session, and the session encrypts them;
-- the routing table files peers by the XOR distance of their ids, and a lookup walks towards a
-- target by asking peers that it sorts by that distance; peers that cannot reach one another go
-- through a relay.
--
-- Common models no code. It has numbers, lists and their tests, bytes (Bytes), bits of a word
-- (Bits), the results of fallible code with a panic as a case of its own (Outcome), readers off a
-- buffer (Reader), the stable sort of slices (Sort), hash maps with integer keys (Maps) and f64 as
-- a parameter (Float).
--
-- Crypto.Replay is `ReplayWindow` of crates/ceky-crypto/src/session.rs, operation by operation, and
-- Crypto.Session the `SecureSession` there; Crypto.PeerId and Crypto.Identity are `PeerId` and
-- `Identity` of crates/ceky-crypto/src/identity.rs. Crypto.Noise is noise.rs there: each call is a
-- step of a handshake that is passed on, Crypto.Noise.Refused has its transitions, and
-- Crypto.Noise.Channel puts a handshake and the two sessions of its keys together. Protocol.Types
-- and Protocol.Codec are types.rs, lib.rs, error.rs and codec.rs of crates/ceky-protocol/src:
-- `FrameCodec::decode` is a function from its state and buffer to its state, buffer and result.
-- Protocol.Transfer is crates/ceky-protocol/src/transfer.rs: an `encode` gives bytes, a `decode` an
-- outcome; Transfer.Utf8 is `std::str::from_utf8`. Protocol.Find is dht.rs there. Dht.PeerInfo is
-- crates/ceky-dht/src/peer_info.rs, Dht.KBucket and Dht.Routing are routing.rs there, and
-- Dht.Lookup is `IterativeLookup` of operations.rs, whose histories are the step relation
-- Dht.Lookup.History.Run; Dht.Routing.History has the tables that the operations reach;
-- Dht.Bootstrap is bootstrap.rs there. Dht.Entry and Dht.Storage are storage.rs there: the
-- background tasks are steps, and Dht.Storage.Provenance.Run is the relation of all runs. Nat.Stun,
-- Nat.Detection and Nat.HolePunch are stun.rs, detection.rs and hole_punch.rs of crates/ceky-
-- nat/src, from what the socket gives. Nat.Relay is crates/ceky-nat/src/relay.rs, with the step
-- relation in Nat.Relay.Service. Transport.Connection and Transport.Pool are connection.rs and
-- pool.rs of crates/ceky-transport/src; the concurrent map of the pool is modelled one call at a
-- time.
--
-- Transfer.Merkle and Transfer.Manager are merkle.rs, state.rs and manager.rs of crates/ceky-
-- transfer/src, over the messages of Protocol.Transfer. The guards of the concurrent map are part
-- of the state, and a call that waits for a guard of its own caller is an outcome.
--
-- A method that changes its object gives the object back with its result; where an error leaves the
-- object as it was, only the error is given. A call that reads the clock takes the time, in
-- nanoseconds. Integers wrap at their width (`% 2 ^ 64`, `% 2 ^ 32`), `usize` is 64 bits wide, and
-- an index out of range is a panic. Three loops have fuel. Transfer.Merkle's is the length of the
-- file, of which each round takes a byte at least, and that of `pump_send` the number of chunks
-- that are left, one for each round. The third is that of Nat.Stun over the attributes of a
-- response: its fuel is the length of the response, and Nat.Stun.Ends has that it suffices. Every
-- other loop is a recursion on a list or on a number that the code counts.
--
-- Third-party code is a parameter. Protocol.Crc.Crc32c is the CRC-32C of the codec, of which it is
-- used that the checksum is a word; Crypto.Aead.Aead is ChaCha20-Poly1305, of which it is used that
-- decryption undoes encryption; Crypto.Suite.Suite adds SHA-256, X25519 and Ed25519, of which it is
-- used that their results have their lengths, that a shared secret is the same on both sides, that
-- a signature verifies, and that the cipher takes 32 bytes for a key, seals short messages and adds
-- 16 bytes. Dht.Storage.Redb is the database redb, of which it is used that a table gives what was
-- inserted last and that an index keeps what was inserted. Common.Float.Float is f64 arithmetic, of
-- which nothing is used. The tests have an instance of each.
--
-- Not modelled: super nodes, which wait for a model of their own; the transports and the node,
-- which are I/O and wiring; texts, logs and metrics, which no result depends on.
pub mod Common
pub mod Crypto
pub mod Protocol
pub mod Dht
pub mod Nat
pub mod Transport
pub mod Transfer
