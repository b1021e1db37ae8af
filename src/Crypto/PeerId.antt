-- ===== src/Crypto/PeerId.antt =====
-- `PeerId` of crates/ceky-crypto/src/identity.rs: the 32 bytes, the XOR distance and the bucket index.
pub mod Xor
pub mod Distance
mod Tests
use ceky_p2p.Common.{
  ℕ, zero, suc, ◌+◌, ◌-◌, ◌*◌, ◌≡◌, bit_xor, Bool, true, false, not, ◌&&◌, Option, none, some, List,
  [], ◌∷◌, ltb, ◌==◌, if◌then◌else◌, length, All,
}
use ceky_p2p.Common.Bytes.{IsByte}

-- `[u8; 32]`
abbrev pub PeerId : Type 0
PeerId = List ℕ

abbrev pub IsPeerId : PeerId → Type 0
IsPeerId p = (length p ≡ 32) × All IsByte p

-- The derived `==`, and the derived order of the arrays, byte by byte.
unfoldable pub id_eq : PeerId → PeerId → Bool
id_eq [] [] = true
id_eq [] (b ∷ ys) = false
id_eq (a ∷ xs) [] = false
id_eq (a ∷ xs) (b ∷ ys) = a == b && id_eq xs ys

unfoldable pub xor_distance : PeerId → PeerId → List ℕ
xor_distance [] ys = []
xor_distance (a ∷ xs) [] = []
xor_distance (a ∷ xs) (b ∷ ys) = bit_xor a b ∷ xor_distance xs ys

-- `u8::leading_zeros`
unfoldable pub leading_zeros : ℕ → ℕ
leading_zeros b =
    if ltb b 1
    then 8
    else (if ltb b 2
        then 7
        else (if ltb b 4
            then 6
            else (if ltb b 8
                then 5
                else (if ltb b 16
                    then 4
                    else (if ltb b 32
                        then 3
                        else (if ltb b 64 then 2 else (if ltb b 128 then 1 else 0)))))))

-- The loop over the distance from byte byte_idx on.
unfoldable pub first_set : ℕ → List ℕ → Option ℕ
first_set byte_idx [] = none
first_set byte_idx (b ∷ ys) =
    if not (b == 0)
    then some (byte_idx * 8 + (7 - leading_zeros b))
    else first_set (suc byte_idx) ys

unfoldable pub bucket_index : PeerId → PeerId → Option ℕ
unfolding first_set
bucket_index self other = first_set 0 (xor_distance self other)
