-- ===== src/Common/Outcome.antt =====
-- What a fallible operation gives back: Rust's `Result`, with a panic as a third case.
-- `Reader` is a decoder that takes bytes off the front of a `Bytes` buffer.
use Prim.Native.Nat.{ℕ, ◌+◌, ◌-◌}
use mathlib.Core.Path.{◌≡◌, refl}
use mathlib.Core.Bool.{Bool, true, false}
use mathlib.Core.List.{List}
use ceky_p2p.Common.Tests.{leb, if◌then◌else◌}
use ceky_p2p.Common.Lists.{length, take, drop}
use ceky_p2p.Common.Bytes.{from_be}

pub data Outcome {ℓ} (E : Type 0) (A : Type ℓ) : Type ℓ where
  ok : A → Outcome E A
  err : E → Outcome E A
  panic : Outcome E A

pub ok-injective {ℓ} :
    {E : Type 0} {A : Type ℓ} {a b : A} → ◌≡◌ {A = Outcome E A} (ok a) (ok b) → a ≡ b
ok-injective e = cc

infixl 5 ◌>>=◌ ◌>>◌
abbrev pub ◌>>=◌ {ℓ κ} :
    {E : Type 0} {A : Type ℓ} {B : Type κ} → Outcome E A → (A → Outcome E B) → Outcome E B
ok a >>= f = f a
err e >>= f = err e
panic >>= f = panic

-- A chain succeeds only if its first part does.
pub bind-ok {ℓ κ} :
    {E : Type 0} {A : Type ℓ} {B : Type κ} (o : Outcome E A) (f : A → Outcome E B) (b : B)
    → ◌≡◌ {A = Outcome E B} (o >>= f) (ok b)
    → (a : A) × (◌≡◌ {A = Outcome E A} o (ok a)) × (◌≡◌ {A = Outcome E B} (f a) (ok b))
bind-ok (ok a) f b e = (a, refl, e)
bind-ok (err x) f b e = cc
bind-ok panic f b e = cc

abbrev pub ◌>>◌ {ℓ} : {E : Type 0} {B : Type ℓ} → Outcome E (Unit {0}) → Outcome E B → Outcome E B
m >> k = m >>= λ _. k

-- An early `return Err(e)` unless the test holds.
abbrev pub guard : {E : Type 0} → Bool → E → Outcome E (Unit {0})
guard true e = ok tt
guard false e = err e

-- `uN::from_be_bytes([src[i], …])` over n bytes: an index out of range panics.
abbrev pub read_be : {E : Type 0} → ℕ → List ℕ → ℕ → Outcome E ℕ
read_be n src i = if leb (i + n) (length src) then ok (from_be (take n (drop i src))) else panic

-- `&src[from..to]` for from ≤ to: a range past the end panics.
abbrev pub slice : {E : Type 0} → ℕ → ℕ → List ℕ → Outcome E (List ℕ)
slice from to src = if leb to (length src) then ok (take (to - from) (drop from src)) else panic

-- `buf.get_uN()` takes n bytes as a number, and `copy_to_slice` takes them as they are; both panic
-- on a buffer that is too short.
unfoldable pub get_bytes : {E : Type 0} → ℕ → List ℕ → Outcome E (List ℕ × List ℕ)
get_bytes n buf = if leb n (length buf) then ok (take n buf, drop n buf) else panic

unfoldable pub get_be : {E : Type 0} → ℕ → List ℕ → Outcome E (ℕ × List ℕ)
get_be n buf = if leb n (length buf) then ok (from_be (take n buf), drop n buf) else panic
