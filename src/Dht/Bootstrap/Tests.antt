-- ===== src/Dht/Bootstrap/Tests.antt =====
-- Bootstrapping small tables of crates/ceky-dht/src/bootstrap.rs.
use ceky_p2p.Common.{◌*◌, ◌/◌, ◌≡◌, refl, arith, some, ◌∷◌, map, replicate}
use ceky_p2p.Crypto.PeerId.{bucket_index}
use ceky_p2p.Dht.Routing.{stale_buckets}
use ceky_p2p.Dht.Routing.Tests.{
  scores, local, local-IsPeerId, stocked, stocked-IsTable, stocked-IsPeerId,
}
use ceky_p2p.Dht.Bootstrap.{
  BootstrapManager, default_config, new_manager, generate_bucket_fill_targets, stale_bucket_targets,
  fill_target, bucket_target, flip_bit, xor_after, target_bucket,
}
use ceky_p2p.Dht.Bootstrap.Targets.{
  count_from, bucket_fill_targets-buckets, stale_bucket_targets-buckets,
}

abbrev manager : BootstrapManager
manager = new_manager (record default_config { random_lookups = 5 })

-- A bit of a middle byte is flipped, and what comes after it changes too.
second_target : fill_target local 5 1 ≡ 0 ∷ 0 ∷ 0 ∷ 0 ∷ 0 ∷ 0 ∷ 8 ∷ replicate 25 213
unfolding fill_target bucket_target flip_bit xor_after target_bucket
second_target = refl

bucket_fill_targets-buckets_example :
    map (bucket_index local) (generate_bucket_fill_targets manager local)
    ≡ map (λ j. some (j * 256 / 5)) (count_from 0 5)
bucket_fill_targets-buckets_example =
    bucket_fill_targets-buckets manager local local-IsPeerId (omega arith)

stale_bucket_targets-buckets_example :
    map
      (bucket_index stocked.local_id)
      (stale_bucket_targets scores manager stocked.local_id stocked 86_400_000_000_000)
    ≡ map some (stale_buckets scores stocked manager.config.refresh_interval 86_400_000_000_000)
stale_bucket_targets-buckets_example =
    stale_bucket_targets-buckets scores manager stocked 86_400_000_000_000 stocked-IsPeerId
      stocked-IsTable.0
