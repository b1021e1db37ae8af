-- ===== src/Common/Bytes.antt =====
-- Big-endian numbers: `to_be_bytes` and `from_be_bytes` at every width.
use Prim.Native.Nat.{ℕ, zero, suc, ◌+◌, ◌*◌, ◌/◌, ◌%◌, ◌^◌, ◌<◌}
use mathlib.Core.Path.{◌≡◌, refl, ap, sym, ◌∙◌}
use mathlib.Core.List.{List, [], ◌∷◌}
use native.Mathlib.Omega.{arith}
use native.Mathlib.Nat.{
  pow-suc, one-le-pow, mod-eq_of_lt, mod-lt, div-add-mod, add-mul-mod_self_right,
}
use ceky_p2p.Common.Lists.{length, All}

abbrev pub IsByte : ℕ → Type 0
IsByte b = b < 256

-- The lowest n bytes of v, the highest of them first.
unfoldable pub be_bytes : ℕ → ℕ → List ℕ
be_bytes zero v = []
be_bytes (suc n) v = (v / 256 ^ n % 256) ∷ be_bytes n v

unfoldable pub from_be : List ℕ → ℕ
from_be [] = 0
from_be (b ∷ bs) = b * 256 ^ length bs + from_be bs

pub length-be_bytes : (n v : ℕ) → length (be_bytes n v) ≡ n
unfolding be_bytes
length-be_bytes zero v = refl
length-be_bytes (suc n) v = ap suc (length-be_bytes n v)

pub be_bytes-IsByte : (n v : ℕ) → All IsByte (be_bytes n v)
unfolding be_bytes
be_bytes-IsByte zero v = tt
be_bytes-IsByte (suc n) v = (omega arith, be_bytes-IsByte n v)

-- The low digit of a number in a mixed base, and the digit above it.
pub mod-mul : (p m v : ℕ) → 0 < p → 0 < m → v % (p * m) ≡ v / p % m * p + v % p
mod-mul p m v hp hm =
    let q : ℕ = v / p in
    let r : ℕ = v % p in
    let d : ℕ = q % m in
    let whole : v ≡ d * p + r + q / m * (p * m) =
      omega (arith, div-add-mod v p, ap (λ (t : ℕ). p * t) (div-add-mod (v / p) m)) in
    let fits : d * p + r < p * m = grind (arith, mod-lt v hp, mod-lt q hm) in
    ap (λ (t : ℕ). t % (p * m)) whole
    ∙ add-mul-mod_self_right (d * p + r) (q / m) (p * m)
    ∙ mod-eq_of_lt fits

pub from_be-be_bytes_mod : (n v : ℕ) → from_be (be_bytes n v) ≡ v % 256 ^ n
unfolding be_bytes from_be
from_be-be_bytes_mod zero v = omega arith
from_be-be_bytes_mod (suc n) v =
    rw (length-be_bytes n v, from_be-be_bytes_mod n v, pow-suc 256 n)
      (sym (mod-mul (256 ^ n) 256 v (one-le-pow n 256 (omega arith)) (omega arith)))

pub from_be-be_bytes : (n v : ℕ) → v < 256 ^ n → from_be (be_bytes n v) ≡ v
from_be-be_bytes n v h = from_be-be_bytes_mod n v ∙ mod-eq_of_lt h

pub from_be-lt : (bs : List ℕ) → All IsByte bs → from_be bs < 256 ^ length bs
unfolding from_be
from_be-lt [] h = omega arith
from_be-lt (b ∷ bs) h = grind (arith, from_be-lt bs h.1, pow-suc 256 (length bs))

-- `to_le_bytes` and its inverse, the lowest byte first.
unfoldable pub le_bytes : ℕ → ℕ → List ℕ
le_bytes zero v = []
le_bytes (suc n) v = (v % 256) ∷ le_bytes n (v / 256)

from_le : List ℕ → ℕ
from_le [] = 0
from_le (b ∷ bs) = b + 256 * from_le bs

from_le-le_bytes : (n v : ℕ) → v < 256 ^ n → from_le (le_bytes n v) ≡ v
unfolding le_bytes from_le
from_le-le_bytes zero v h = omega arith
from_le-le_bytes (suc n) v h =
    omega (arith, from_le-le_bytes n (v / 256) (omega (arith, pow-suc 256 n)))

pub le_bytes-injective :
    (n v w : ℕ) → v < 256 ^ n → w < 256 ^ n → le_bytes n v ≡ le_bytes n w → v ≡ w
le_bytes-injective n v w hv hw e =
    sym (from_le-le_bytes n v hv) ∙ ap from_le e ∙ from_le-le_bytes n w hw
