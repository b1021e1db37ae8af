-- ===== src/Dht/Bootstrap.antt =====
-- crates/ceky-dht/src/bootstrap.rs: how a node fills its routing table. An address is a number, a
-- duration its nanoseconds, and `usize` is 64 bits wide; a call that reads the clock takes the time.
pub mod Targets
mod Tests
use ceky_p2p.Common.{
  ℕ, zero, suc, ◌+◌, ◌*◌, ◌/◌, ◌%◌, ◌^◌, max, bit_xor, List, [], ◌∷◌, map, ltb, if◌then◌else◌,
  length,
}
use ceky_p2p.Crypto.PeerId.{PeerId}
use ceky_p2p.Common.Float.{Float}
use ceky_p2p.Dht.Lookup.{PeerEntry, IterativeLookup, new_lookup}
use ceky_p2p.Dht.Routing.{num_buckets, RoutingTable, stale_buckets}

pub record BootstrapConfig : Type 0 where
  pub seed_nodes : List ℕ
  pub probe_timeout : ℕ
  pub random_lookups : ℕ
  pub refresh_interval : ℕ

abbrev pub default_config : BootstrapConfig
default_config = record {
  seed_nodes = [];
  probe_timeout = 5_000_000_000;
  random_lookups = 3;
  refresh_interval = 3_600_000_000_000;
}

pub data BootstrapState : Type 0 where
  idle contacting_seeds self_lookup bucket_fill complete failed : BootstrapState

pub record BootstrapResult : Type 0 where
  pub state : BootstrapState
  pub peers_discovered : ℕ
  pub seeds_responded : ℕ
  pub seeds_attempted : ℕ

pub record BootstrapManager : Type 0 where
  pub config : BootstrapConfig
  pub state : BootstrapState

abbrev pub new_manager : BootstrapConfig → BootstrapManager
new_manager config = record { config = config; state = idle }

abbrev pub with_seeds : List ℕ → BootstrapManager
with_seeds seeds = new_manager (record default_config { seed_nodes = seeds })

unfoldable pub prepare_self_lookup :
    BootstrapManager → PeerId → List PeerEntry → BootstrapManager × IterativeLookup
unfolding new_lookup
prepare_self_lookup m local_id known_peers =
    (record m { state = self_lookup }, new_lookup local_id known_peers)

-- `bytes[i] ^= 1 << j`
unfoldable pub flip_bit : ℕ → ℕ → List ℕ → List ℕ
flip_bit i j [] = []
flip_bit zero j (b ∷ bytes) = bit_xor b (2 ^ j) ∷ bytes
flip_bit (suc i) j (b ∷ bytes) = b ∷ flip_bit i j bytes

-- `for b in bytes.iter_mut().skip(n) { *b ^= seed }`
unfoldable pub xor_after : ℕ → ℕ → List ℕ → List ℕ
xor_after n seed [] = []
xor_after zero seed (b ∷ bytes) = bit_xor b seed ∷ xor_after zero seed bytes
xor_after (suc n) seed (b ∷ bytes) = b ∷ xor_after n seed bytes

-- The local id with one bit flipped: the peer id that a bucket is refreshed with.
unfoldable pub bucket_target : PeerId → ℕ → PeerId
unfolding flip_bit
bucket_target local_id bucket =
    if ltb (bucket / 8) 32 then flip_bit (bucket / 8) (bucket % 8) local_id else local_id

-- The bucket of lookup number i.
unfoldable pub target_bucket : ℕ → ℕ → ℕ
target_bucket random_lookups i = i * num_buckets % 2 ^ 64 / max random_lookups 1

abbrev pub seed : ℕ → ℕ
seed i = (i % 256 * 158 % 256 + 55) % 256

unfoldable pub fill_target : PeerId → ℕ → ℕ → PeerId
unfolding bucket_target xor_after
fill_target local_id random_lookups i =
    let bucket = target_bucket random_lookups i in
    xor_after (bucket / 8 + 1) (seed i) (bucket_target local_id bucket)

-- The loop over the remaining lookups from number i on.
unfoldable pub fill_from : PeerId → ℕ → ℕ → ℕ → List PeerId
unfolding fill_target
fill_from local_id random_lookups i zero = []
fill_from local_id random_lookups i (suc left) =
    fill_target local_id random_lookups i ∷ fill_from local_id random_lookups (i + 1) left

unfoldable pub generate_bucket_fill_targets : BootstrapManager → PeerId → List PeerId
unfolding fill_from
generate_bucket_fill_targets m local_id =
    fill_from local_id m.config.random_lookups 0 m.config.random_lookups

-- The numbers are only logged.
abbrev pub seeds_contacted : BootstrapManager → ℕ → ℕ → BootstrapManager
seeds_contacted m responded total = record m { state = contacting_seeds }

abbrev pub begin_bucket_fill : BootstrapManager → BootstrapManager
begin_bucket_fill m = record m { state = bucket_fill }

module _ (float : Float) where
  unfoldable pub complete_bootstrap :
      BootstrapManager → RoutingTable float → BootstrapManager × BootstrapResult
  complete_bootstrap m t =
      let state = if ltb 0 t.total_peers then complete else failed in
      (
        record m { state = state },
        record {
          state = state;
          peers_discovered = t.total_peers;
          seeds_responded = 0;
          seeds_attempted = length m.config.seed_nodes;
        },
      )

  unfoldable pub stale_bucket_targets :
      BootstrapManager → PeerId → RoutingTable float → ℕ → List PeerId
  unfolding bucket_target stale_buckets
  stale_bucket_targets m local_id t now =
      map (bucket_target local_id) (stale_buckets float t m.config.refresh_interval now)
