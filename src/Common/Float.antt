-- ===== src/Common/Float.antt =====
-- The f64 arithmetic of the peer scores of crates/ceky-dht and of the bandwidth test of crates/ceky-nat,
-- as it comes: no law is assumed.
use Prim.Native.Nat.{ℕ}
use mathlib.Core.Bool.{Bool}

pub record Float : Type 1 where
  pub F64 : Type 0
  pub of_nat : ℕ → F64
  -- `Duration::as_secs_f64`, of a time in nanoseconds.
  pub secs : ℕ → F64
  pub add : F64 → F64 → F64
  pub sub : F64 → F64 → F64
  pub mul : F64 → F64 → F64
  pub div : F64 → F64 → F64
  pub min : F64 → F64 → F64
  pub max : F64 → F64 → F64
  pub log2 : F64 → F64
  pub lt : F64 → F64 → Bool
  pub max_value : F64
