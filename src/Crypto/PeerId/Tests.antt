-- ===== src/Crypto/PeerId/Tests.antt =====
-- Bucket indices of crates/ceky-crypto/src/identity.rs on ids that differ in one bit.
use ceky_p2p.Common.{◌*◌, ◌/◌, ◌%◌, ◌-◌, ◌^◌, ◌≤◌, ◌<◌, ◌≡◌, refl, arith, some, ◌∷◌, replicate}
use ceky_p2p.Common.Bytes.{from_be}
use ceky_p2p.Crypto.PeerId.{PeerId, IsPeerId, xor_distance, bucket_index, first_set, leading_zeros}
use ceky_p2p.Crypto.PeerId.Distance.{bucket_index-bounds, bucket_index_comm}

abbrev origin : PeerId
origin = replicate 32 0

-- Its highest bit alone is set.
abbrev far : PeerId
far = 128 ∷ replicate 31 0

origin-IsPeerId : IsPeerId origin
origin-IsPeerId = ground arith

far-IsPeerId : IsPeerId far
far-IsPeerId = ground arith

bucket_index-far : bucket_index origin far ≡ some 7
unfolding bucket_index first_set leading_zeros xor_distance
bucket_index-far = refl

bucket_index-bounds_example :
    (7 < 256)
    × (256 ^ (31 - 7 / 8) * 2 ^ (7 % 8) ≤ from_be (xor_distance origin far))
    × (from_be (xor_distance origin far) < 256 ^ (31 - 7 / 8) * (2 * 2 ^ (7 % 8)))
bucket_index-bounds_example =
    bucket_index-bounds origin far 7 origin-IsPeerId far-IsPeerId bucket_index-far

bucket_index_comm_example : bucket_index origin far ≡ bucket_index far origin
bucket_index_comm_example = bucket_index_comm origin far origin-IsPeerId far-IsPeerId
