-- ===== src/Dht.antt =====
-- crates/ceky-dht: peers and their scores, the routing table, the iterative lookup, and what a node
-- stores.
pub mod PeerInfo
pub mod KBucket
pub mod Routing
pub mod Lookup
pub mod Bootstrap
pub mod Entry
pub mod Storage
