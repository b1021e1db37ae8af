-- ===== src/Common/Reader.antt =====
-- Laws of the readers that take numbers and bytes off the front of a buffer: what they read of what was
-- written, and that they panic only on a buffer that is too short.
use Prim.Native.Nat.{ℕ, ◌+◌, ◌^◌, ◌≤◌, ◌<◌}
use mathlib.Core.Path.{◌≡◌, refl, sym, ap, ◌∙◌}
use mathlib.Core.Logic.{◌≢◌, inl, inr}
use mathlib.Core.List.{List, ◌++◌}
use mathlib.Core.Bool.{Bool, true, false}
use native.Mathlib.Omega.{arith}
use ceky_p2p.Common.Tests.{leb, le→leb, Bool-cases}
use ceky_p2p.Common.Lists.{length, take, drop, length-append, length-drop, take-append, drop-append}
use ceky_p2p.Common.Bytes.{be_bytes, length-be_bytes, from_be-be_bytes}
use ceky_p2p.Common.Outcome.{
  Outcome, ok, err, panic, ◌>>=◌, ◌>>◌, guard, get_be, get_bytes, ok-injective,
}

abbrev pub Safe {ℓ} : {E : Type 0} {A : Type ℓ} → Outcome E A → Type ℓ
Safe o = o ≢ panic

pub bind-Safe {ℓ κ} :
    {E : Type 0} {A : Type ℓ} {B : Type κ} (o : Outcome E A) (f : A → Outcome E B)
    → Safe o
    → ((a : A) → ◌≡◌ {A = Outcome E A} o (ok a) → Safe (f a))
    → Safe (o >>= f)
bind-Safe (ok a) f s h = h a refl
bind-Safe (err x) f s h = λ e. cc
bind-Safe panic f s h = absurd (s refl)

module _ {E : Type 0} where
  pub get_bytes-append :
      (n : ℕ) (xs rest : List ℕ)
      → length xs ≡ n
      → ◌≡◌ {A = Outcome E (List ℕ × List ℕ)} (get_bytes n (xs ++ rest)) (ok (xs, rest))
  unfolding get_bytes
  get_bytes-append n xs rest e = rw (← e) (
      rw
        (
          le→leb (length xs) (length (xs ++ rest)) (omega (arith, length-append xs rest)),
          take-append xs rest,
          drop-append xs rest,
        )
        refl)

  pub get_be-be_bytes :
      (n v : ℕ) (rest : List ℕ)
      → v < 256 ^ n
      → ◌≡◌ {A = Outcome E (ℕ × List ℕ)} (get_be n (be_bytes n v ++ rest)) (ok (v, rest))
  unfolding get_be
  get_be-be_bytes n v rest h =
      let xs = be_bytes n v in
      let len : length xs ≡ n = length-be_bytes n v in
      let front : take n (xs ++ rest) ≡ xs =
        ap (λ (k : ℕ). take k (xs ++ rest)) (sym len) ∙ take-append xs rest in
      let back : drop n (xs ++ rest) ≡ rest =
        ap (λ (k : ℕ). drop k (xs ++ rest)) (sym len) ∙ drop-append xs rest in
      rw
        (
          le→leb n (length (xs ++ rest)) (omega (arith, length-append xs rest, len)),
          front,
          back,
          from_be-be_bytes n v h,
        )
        refl

  pub get_be-Safe : (n : ℕ) (buf : List ℕ) → n ≤ length buf → Safe (get_be {E = E} n buf)
  unfolding get_be
  get_be-Safe n buf h = rw (le→leb n (length buf) h) (λ e. cc)

  pub get_bytes-Safe : (n : ℕ) (buf : List ℕ) → n ≤ length buf → Safe (get_bytes {E = E} n buf)
  unfolding get_bytes
  get_bytes-Safe n buf h = rw (le→leb n (length buf) h) (λ e. cc)

  pub get_be-length :
      (n : ℕ) (buf : List ℕ) (r : ℕ × List ℕ)
      → ◌≡◌ {A = Outcome E (ℕ × List ℕ)} (get_be n buf) (ok r)
      → n + length r.1 ≡ length buf
  unfolding get_be
  get_be-length n buf r e = elim (Bool-cases (leb n (length buf))) [
    | inr short ↦ cc (rw short at e)
    | inl long ↦
        let same = ok-injective (rw long at e) in
        rw (← same) (ground (arith, length-drop n buf, long))
  ]

  pub get_bytes-length :
      (n : ℕ) (buf : List ℕ) (r : List ℕ × List ℕ)
      → ◌≡◌ {A = Outcome E (List ℕ × List ℕ)} (get_bytes n buf) (ok r)
      → n + length r.1 ≡ length buf
  unfolding get_bytes
  get_bytes-length n buf r e = elim (Bool-cases (leb n (length buf))) [
    | inr short ↦ cc (rw short at e)
    | inl long ↦
        let same = ok-injective (rw long at e) in
        rw (← same) (ground (arith, length-drop n buf, long))
  ]

-- A guard never panics, and what follows it may use its test.
pub guard-Safe :
    {E A : Type 0} (b : Bool) (e : E) (rest : Outcome E A)
    → (b ≡ true → Safe rest)
    → Safe (guard b e >> rest)
guard-Safe true e rest h = h refl
guard-Safe false e rest h = λ x. cc

-- One number off the front.
pub get_be-then :
    {E A : Type 0} (n : ℕ) (buf : List ℕ) (f : ℕ × List ℕ → Outcome E A)
    → n ≤ length buf
    → ((r : ℕ × List ℕ) → n + length r.1 ≡ length buf → Safe (f r))
    → Safe (get_be n buf >>= f)
get_be-then n buf f h k =
    bind-Safe (get_be n buf) f (get_be-Safe n buf h) (λ r e. k r (get_be-length n buf r e))

pub get_bytes-then :
    {E A : Type 0} (n : ℕ) (buf : List ℕ) (f : List ℕ × List ℕ → Outcome E A)
    → n ≤ length buf
    → ((r : List ℕ × List ℕ) → n + length r.1 ≡ length buf → Safe (f r))
    → Safe (get_bytes n buf >>= f)
get_bytes-then n buf f h k =
    bind-Safe (get_bytes n buf) f (get_bytes-Safe n buf h) (λ r e. k r (get_bytes-length n buf r e))

pub ensured : (n : ℕ) (buf : List ℕ) → leb n (length buf) ≡ true → n ≤ length buf
ensured n buf h = ground (arith, h)

pub known-Safe :
    {E A B : Type 0} (o : Outcome E A) (f : A → B) → Safe o → Safe (o >>= λ a. ok (f a))
known-Safe o f h = bind-Safe o (λ a. ok (f a)) h (λ a e x. cc)
