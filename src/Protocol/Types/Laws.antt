-- ===== src/Protocol/Types/Laws.antt =====
-- Laws of crates/ceky-protocol/src/types.rs.
use ceky_p2p.Common.{
  ℕ, ◌^◌, ◌<◌, ◌≡◌, ◌≢◌, ◌∙◌, ap, sym, ◌↔◌, refl, arith, Bool, true, not, some, ◌==◌,
}
use ceky_p2p.Common.Bits.{
  bit, bit-lt, bit-bit_or, bit_and-pow, bit-pow_self, bit-pow_other, pow-pos,
}
use ceky_p2p.Protocol.Types.{
  MessageType, handshake, as_byte, from_byte, Flags, has_flag, with_flag, is_encrypted,
  is_compressed, is_fragmented, is_priority, with_encrypted, with_compressed, with_fragmented,
  with_priority,
}

pub from_byte-as_byte : (t : MessageType) → from_byte (as_byte t) ≡ some t
unfolding from_byte as_byte
from_byte-as_byte handshake = refl
from_byte-as_byte _ = refl

pub as_byte-lt : (t : MessageType) → as_byte t < 256
unfolding as_byte
as_byte-lt handshake = omega arith
as_byte-lt _ = omega arith

pub as_byte-from_byte : (b : ℕ) (t : MessageType) → from_byte b ≡ some t → as_byte t ≡ b
unfolding from_byte as_byte
as_byte-from_byte b t e = ground arith

pub as_byte-injective : (t u : MessageType) → as_byte t ≡ as_byte u → t ≡ u
as_byte-injective t u e = cc (from_byte-as_byte t, from_byte-as_byte u, ap from_byte e)

-- The byte of a type is read back as that type, and a byte is read as a type only if it is its byte.
pub from_byte_iff : (b : ℕ) (t : MessageType) → (from_byte b ≡ some t) ↔ (b ≡ as_byte t)
from_byte_iff b t = (λ e. sym (as_byte-from_byte b t e), λ e. rw e (from_byte-as_byte t))

has_flag-bit : (f : Flags) (k : ℕ) → has_flag f (2 ^ k) ≡ not (bit f.bits k == 0)
unfolding has_flag
has_flag-bit f k = grind (arith, bit_and-pow f.bits k, bit-lt f.bits k, pow-pos k)

has_flag-with_flag_self : (f : Flags) (k : ℕ) → has_flag (with_flag f (2 ^ k)) (2 ^ k) ≡ true
unfolding with_flag
has_flag-with_flag_self f k =
    has_flag-bit (with_flag f (2 ^ k)) k
    ∙ ground (arith, bit-bit_or f.bits (2 ^ k) k, bit-pow_self k, bit-lt f.bits k)

has_flag-with_flag_other :
    (f : Flags) (j k : ℕ) → j ≢ k → has_flag (with_flag f (2 ^ j)) (2 ^ k) ≡ has_flag f (2 ^ k)
unfolding with_flag
has_flag-with_flag_other f j k h =
    has_flag-bit (with_flag f (2 ^ j)) k
    ∙ ground (arith, bit-bit_or f.bits (2 ^ j) k, bit-pow_other j k h, has_flag-bit f k)

-- What a receiver reads of the flags.
abbrev pub flags_view : Flags → Bool × Bool × Bool × Bool
flags_view f = (is_encrypted f, is_compressed f, is_fragmented f, is_priority f)

-- Each setter sets its own flag and leaves the other three as they were.
pub with_flags :
    (f : Flags)
    → (flags_view (with_encrypted f) ≡ (true, is_compressed f, is_fragmented f, is_priority f))
      × (flags_view (with_compressed f) ≡ (is_encrypted f, true, is_fragmented f, is_priority f))
      × (flags_view (with_fragmented f) ≡ (is_encrypted f, is_compressed f, true, is_priority f))
      × (flags_view (with_priority f) ≡ (is_encrypted f, is_compressed f, is_fragmented f, true))
unfolding is_encrypted is_compressed is_fragmented is_priority with_encrypted with_compressed
    with_fragmented with_priority
with_flags f = (
  rw (
    self 0,
    other 0 1 (λ e. omega arith),
    other 0 2 (λ e. omega arith),
    other 0 3 (λ e. omega arith),
  ),
  rw (
    other 1 0 (λ e. omega arith),
    self 1,
    other 1 2 (λ e. omega arith),
    other 1 3 (λ e. omega arith),
  ),
  rw (
    other 2 0 (λ e. omega arith),
    other 2 1 (λ e. omega arith),
    self 2,
    other 2 3 (λ e. omega arith),
  ),
  rw (
    other 3 0 (λ e. omega arith),
    other 3 1 (λ e. omega arith),
    other 3 2 (λ e. omega arith),
    self 3,
  ),
)
  where
    self : (k : ℕ) → has_flag (with_flag f (2 ^ k)) (2 ^ k) ≡ true
    self = has_flag-with_flag_self f

    other : (j k : ℕ) → j ≢ k → has_flag (with_flag f (2 ^ j)) (2 ^ k) ≡ has_flag f (2 ^ k)
    other = has_flag-with_flag_other f
