-- ===== src/Dht/Bootstrap/Targets.antt =====
-- Where the lookups of crates/ceky-dht/src/bootstrap.rs land.
use native.Mathlib.Nat.{div-lt_iff_lt-mul}
use ceky_p2p.Common.{
  ℕ, zero, suc, ◌+◌, ◌-◌, ◌*◌, ◌/◌, ◌%◌, ◌^◌, ◌≤◌, ◌<◌, ◌≡◌, ◌≢◌, refl, ◌∙◌, ap, arith, max,
  bit_xor, some, List, [], ◌∷◌, map, length, All, ltb, take, ne→==, lt→ltb, true, not, ◌&&◌, ◌==◌,
  Bool-cases, inl, inr,
}
use mathlib.Core.Path.{ap₂}
use ceky_p2p.Common.Bytes.{IsByte}
use ceky_p2p.Common.Float.{Float}
use ceky_p2p.Crypto.PeerId.{PeerId, IsPeerId, xor_distance, leading_zeros, first_set, bucket_index}
use ceky_p2p.Crypto.PeerId.Xor.{bit_xor_comm, bit_xor_self, bit_xor_twice, bit_xor-IsByte}
use ceky_p2p.Dht.KBucket.{KBucket}
use ceky_p2p.Dht.Routing.{RoutingTable, stale_from, stale_buckets}
use ceky_p2p.Dht.Routing.Table.{IsTable}
use ceky_p2p.Dht.Bootstrap.{
  BootstrapManager, flip_bit, xor_after, bucket_target, target_bucket, seed, fill_target, fill_from,
  generate_bucket_fill_targets, stale_bucket_targets,
}

-- A power of two is its own highest bit.
power_bit : (j : ℕ) → j < 8 → IsByte (2 ^ j) × 2 ^ j ≢ 0 × 7 - leading_zeros (2 ^ j) ≡ j
unfolding leading_zeros
power_bit zero h = (omega arith, omega arith, refl)
power_bit (suc zero) h = (omega arith, omega arith, refl)
power_bit (suc (suc zero)) h = (omega arith, omega arith, refl)
power_bit (suc (suc (suc zero))) h = (omega arith, omega arith, refl)
power_bit (suc (suc (suc (suc zero)))) h = (omega arith, omega arith, refl)
power_bit (suc (suc (suc (suc (suc zero))))) h = (omega arith, omega arith, refl)
power_bit (suc (suc (suc (suc (suc (suc zero)))))) h = (omega arith, omega arith, refl)
power_bit (suc (suc (suc (suc (suc (suc (suc zero))))))) h = (omega arith, omega arith, refl)
power_bit (suc (suc (suc (suc (suc (suc (suc (suc j)))))))) h = absurd (omega arith)

-- The flipped bit comes back out.
flipped : (b p : ℕ) → IsByte b → IsByte p → bit_xor b (bit_xor b p) ≡ p
flipped b p hb hp =
    bit_xor_comm b (bit_xor b p) hb (bit_xor-IsByte b p hb hp)
    ∙ ap (λ x. bit_xor x b) (bit_xor_comm b p hb hp)
    ∙ bit_xor_twice 8 p b hp hb

take-xor_after : (n s : ℕ) (bytes : List ℕ) → take n (xor_after n s bytes) ≡ take n bytes
unfolding xor_after
take-xor_after zero s bytes = refl
take-xor_after (suc n) s [] = refl
take-xor_after (suc n) s (b ∷ bytes) = ap (λ (ys : List ℕ). b ∷ ys) (take-xor_after n s bytes)

-- The first byte that differs is the flipped one, whatever happens to the bytes after it.
first_set-flip_bit :
    (k i j : ℕ) (local other : List ℕ)
    → i < length local
    → j < 8
    → All IsByte local
    → take (suc i) other ≡ take (suc i) (flip_bit i j local)
    → first_set k (xor_distance local other) ≡ some ((k + i) * 8 + j)
unfolding first_set xor_distance flip_bit
first_set-flip_bit k i j [] other lt h v e = absurd (omega arith)
first_set-flip_bit k zero j (b ∷ local) [] lt h v e = cc
first_set-flip_bit k (suc i) j (b ∷ local) [] lt h v e = cc
first_set-flip_bit k zero j (b ∷ local) (c ∷ other) lt h v e =
    let (byte, nz, place) = power_bit j h in
    let same : c ≡ bit_xor b (2 ^ j) = cc in
    rw (same, flipped b (2 ^ j) v.0 byte, ne→== (2 ^ j) 0 nz, place) (ap some (omega arith))
first_set-flip_bit k (suc i) j (b ∷ local) (c ∷ other) lt h v e =
    let same : c ≡ b = cc in
    let rest : take (suc i) other ≡ take (suc i) (flip_bit i j local) = cc in
    rw (same, bit_xor_self b v.0)
      (first_set-flip_bit (suc k) i j local other (omega arith) h v.1 rest ∙ ap some (omega arith))

-- A target that starts like the refresh target of a bucket is in that bucket.
in_bucket :
    (local : PeerId) (bucket : ℕ) (other : PeerId)
    → IsPeerId local
    → bucket < 256
    → take (suc (bucket / 8)) other ≡ take (suc (bucket / 8)) (bucket_target local bucket)
    → bucket_index local other ≡ some bucket
unfolding bucket_index bucket_target
in_bucket local bucket other v lt e =
    let byte : ltb (bucket / 8) 32 ≡ true = lt→ltb (bucket / 8) 32 (omega arith) in
    let same : take (suc (bucket / 8)) other
        ≡ take (suc (bucket / 8)) (flip_bit (bucket / 8) (bucket % 8) local) =
      rw byte at e in
    first_set-flip_bit 0 (bucket / 8) (bucket % 8) local other (omega (arith, v.0)) (omega arith)
      v.1 same
    ∙ ap some (omega arith)

-- The target that refreshes a bucket is in it.
pub bucket_target-bucket :
    (local : PeerId) (bucket : ℕ)
    → IsPeerId local
    → bucket < 256
    → bucket_index local (bucket_target local bucket) ≡ some bucket
bucket_target-bucket local bucket v lt =
    in_bucket local bucket (bucket_target local bucket) v lt refl

-- The numbers from i on.
abbrev pub count_from : ℕ → ℕ → List ℕ
count_from i zero = []
count_from i (suc left) = i ∷ count_from (i + 1) left

target_bucket_lem :
    (n i : ℕ) → n ≤ 2 ^ 56 → i < n → (target_bucket n i ≡ i * 256 / n) × (target_bucket n i < 256)
unfolding target_bucket
target_bucket_lem n i small lt =
    let most : max n 1 ≡ n = omega arith in
    let whole : i * 256 % 2 ^ 64 ≡ i * 256 = omega arith in
    rw (most, whole) (refl, (div-lt_iff_lt-mul (omega arith)).1 (omega arith))

fill_target-bucket :
    (local : PeerId) (n i : ℕ)
    → IsPeerId local
    → n ≤ 2 ^ 56
    → i < n
    → bucket_index local (fill_target local n i) ≡ some (i * 256 / n)
unfolding fill_target
fill_target-bucket local n i v small lt =
    let (place, below) = target_bucket_lem n i small lt in
    let bucket = target_bucket n i in
    let width : bucket / 8 + 1 ≡ suc (bucket / 8) = omega arith in
    in_bucket local bucket (fill_target local n i) v below
      (rw width (take-xor_after (suc (bucket / 8)) (seed i) (bucket_target local bucket)))
    ∙ ap some place

fill_from-buckets :
    (local : PeerId) (n i left : ℕ)
    → IsPeerId local
    → n ≤ 2 ^ 56
    → i + left ≤ n
    → map (bucket_index local) (fill_from local n i left)
      ≡ map (λ j. some (j * 256 / n)) (count_from i left)
unfolding fill_from
fill_from-buckets local n i zero v small fits = refl
fill_from-buckets local n i (suc left) v small fits =
    ap₂ ◌∷◌ (fill_target-bucket local n i v small (omega arith))
      (fill_from-buckets local n (i + 1) left v small (omega arith))

-- For a local id of 32 bytes and at most 2^56 random lookups, the targets of the bucket fill are one
-- peer id in each of the buckets 0, 256 / n, 2 * 256 / n and so on, for the n lookups configured.
pub bucket_fill_targets-buckets :
    (m : BootstrapManager) (local : PeerId)
    → IsPeerId local
    → m.config.random_lookups ≤ 2 ^ 56
    → map (bucket_index local) (generate_bucket_fill_targets m local)
      ≡ map (λ j. some (j * 256 / m.config.random_lookups)) (count_from 0 m.config.random_lookups)
unfolding generate_bucket_fill_targets
bucket_fill_targets-buckets m local v small =
    fill_from-buckets local m.config.random_lookups 0 m.config.random_lookups v small (omega arith)

module _ (float : Float) where
  stale_from-buckets :
      (local : PeerId) (i : ℕ) (bs : List (KBucket float)) (age now : ℕ)
      → IsPeerId local
      → i + length bs ≤ 256
      → map (bucket_index local) (map (bucket_target local) (stale_from float i bs age now))
        ≡ map some (stale_from float i bs age now)
  unfolding stale_from
  stale_from-buckets local i [] age now v fits = refl
  stale_from-buckets local i (b ∷ bs) age now v fits =
      let rest = stale_from-buckets local (i + 1) bs age now v (omega arith) in
      elim (Bool-cases (not (length b.peers == 0) && ltb age (now - b.last_refresh))) [
        | inl old ↦ rw old (ap₂ ◌∷◌ (bucket_target-bucket local i v (omega arith)) rest)
        | inr fresh ↦ rw fresh rest
      ]

  -- For a well-formed table of the local peer, the targets of a refresh are one peer id in each stale
  -- bucket, in their order.
  pub stale_bucket_targets-buckets :
      (m : BootstrapManager) (t : RoutingTable float) (now : ℕ)
      → IsPeerId t.local_id
      → IsTable float t
      → map (bucket_index t.local_id) (stale_bucket_targets float m t.local_id t now)
        ≡ map some (stale_buckets float t m.config.refresh_interval now)
  unfolding stale_bucket_targets stale_buckets IsTable
  stale_bucket_targets-buckets m t now v table =
      stale_from-buckets t.local_id 0 t.buckets m.config.refresh_interval now v
        (omega (arith, table.0))
