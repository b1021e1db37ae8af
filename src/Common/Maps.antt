-- ===== src/Common/Maps.antt =====
-- A `HashMap` with integer keys, as a list of its entries.
use Prim.Native.Nat.{ℕ, suc, ◌≤◌}
use mathlib.Core.Path.{◌≡◌, refl, sym, ap, ◌∙◌}
use mathlib.Core.Logic.{◌≢◌, inl, inr}
use mathlib.Core.Bool.{Bool, false, ◌||◌}
use mathlib.Core.Option.{Option, none, some}
use mathlib.Core.List.{List, [], ◌∷◌}
use native.Mathlib.Omega.{arith}
use ceky_p2p.Common.Tests.{◌==◌, if◌then◌else◌, ne→==, ==→eq, Bool-cases}
use ceky_p2p.Common.Lists.{length, All}

module _ {V : Type 0} where
  abbrev pub lookup : ℕ → List (ℕ × V) → Option V
  lookup k [] = none
  lookup k (e ∷ es) = if e.0 == k then some e.1 else lookup k es

  -- `HashMap::insert`
  abbrev pub assign : ℕ → V → List (ℕ × V) → List (ℕ × V)
  assign k v [] = (k, v) ∷ []
  assign k v (e ∷ es) = if e.0 == k then (k, v) ∷ es else e ∷ assign k v es

  -- `HashMap::remove`
  abbrev pub erase : ℕ → List (ℕ × V) → List (ℕ × V)
  erase k [] = []
  erase k (e ∷ es) = if e.0 == k then es else e ∷ erase k es

  abbrev pub has_key : ℕ → List (ℕ × V) → Bool
  has_key k [] = false
  has_key k (e ∷ es) = (e.0 == k) || has_key k es

  -- No key twice.
  abbrev pub IsMap : List (ℕ × V) → Type 0
  IsMap [] = Unit {0}
  IsMap (e ∷ es) = (has_key e.0 es ≡ false) × IsMap es

  pub lookup-assign_self : (k : ℕ) (v : V) (es : List (ℕ × V)) → lookup k (assign k v es) ≡ some v
  lookup-assign_self k v [] = ground arith
  lookup-assign_self k v (e ∷ es) = ground (arith, lookup-assign_self k v es)

  pub lookup-assign_ne :
      (j k : ℕ) (v : V) (es : List (ℕ × V)) → k ≢ j → lookup j (assign k v es) ≡ lookup j es
  lookup-assign_ne j k v [] ne = rw (ne→== k j ne) refl
  lookup-assign_ne j k v (e ∷ es) ne = elim (Bool-cases (e.0 == k)) [
    | inl same ↦ rw (same, ne→== k j ne, ne→== e.0 j (λ h. ne (sym (==→eq e.0 k same) ∙ h))) refl
    | inr other ↦ rw (other, lookup-assign_ne j k v es ne) refl
  ]

  pub has_key-assign :
      (j k : ℕ) (v : V) (es : List (ℕ × V)) → has_key j (assign k v es) ≡ (k == j) || has_key j es
  has_key-assign j k v [] = refl
  has_key-assign j k v (e ∷ es) = ground (arith, has_key-assign j k v es)

  pub length-assign : (k : ℕ) (v : V) (es : List (ℕ × V)) → length (assign k v es) ≤ suc (length es)
  length-assign k v [] = omega arith
  length-assign k v (e ∷ es) = ground (arith, length-assign k v es)

  pub length-assign_present :
      (k : ℕ) (v w : V) (es : List (ℕ × V))
      → lookup k es ≡ some w
      → length (assign k v es) ≡ length es
  length-assign_present k v w [] h = cc
  length-assign_present k v w (e ∷ es) h = ground (arith, length-assign_present k v w es)

  pub assign-IsMap : (k : ℕ) (v : V) (es : List (ℕ × V)) → IsMap es → IsMap (assign k v es)
  assign-IsMap k v [] h = (refl, tt)
  assign-IsMap k v (e ∷ es) h = elim (Bool-cases (e.0 == k)) [
    | inl same ↦ let key : e.0 ≡ k = ==→eq e.0 k same in rw same (rw (← key) h.0, h.1)
    | inr other ↦ rw other (ground (arith, has_key-assign e.0 k v es, h.0), assign-IsMap k v es h.1)
  ]

  pub All-assign :
      (P : ℕ × V → Type 0) (k : ℕ) (v : V) (es : List (ℕ × V))
      → All P es
      → P (k, v)
      → All P (assign k v es)
  All-assign P k v [] h p = (p, tt)
  All-assign P k v (e ∷ es) h p = elim (Bool-cases (e.0 == k)) [
    | inl same ↦ rw same (p, h.1)
    | inr other ↦ rw other (h.0, All-assign P k v es h.1 p)
  ]

  -- An entry that is found has what all entries have.
  pub All-lookup :
      (P : ℕ × V → Type 0) (k : ℕ) (v : V) (es : List (ℕ × V))
      → All P es
      → lookup k es ≡ some v
      → P (k, v)
  All-lookup P k v [] h e = cc
  All-lookup P k v (e ∷ es) h found = elim (Bool-cases (e.0 == k)) [
    | inl same ↦
        let key : e.0 ≡ k = ==→eq e.0 k same in
        let val : e.1 ≡ v = ground (arith, found, same) in rw (← key, ← val) h.0
    | inr other ↦ All-lookup P k v es h.1 (rw other at found)
  ]

  pub lookup-has_key : (k : ℕ) (es : List (ℕ × V)) → has_key k es ≡ false → lookup k es ≡ none
  lookup-has_key k [] h = refl
  lookup-has_key k (e ∷ es) h = ground (arith, lookup-has_key k es)

  pub length-erase : (k : ℕ) (es : List (ℕ × V)) → length (erase k es) ≤ length es
  length-erase k [] = omega arith
  length-erase k (e ∷ es) = ground (arith, length-erase k es)

  pub All-erase : (P : ℕ × V → Type 0) (k : ℕ) (es : List (ℕ × V)) → All P es → All P (erase k es)
  All-erase P k [] h = tt
  All-erase P k (e ∷ es) h = elim (Bool-cases (e.0 == k)) [
    | inl same ↦ rw same h.1
    | inr other ↦ rw other (h.0, All-erase P k es h.1)
  ]

  has_key-erase :
      (j k : ℕ) (es : List (ℕ × V)) → has_key j es ≡ false → has_key j (erase k es) ≡ false
  has_key-erase j k [] h = refl
  has_key-erase j k (e ∷ es) h = ground (arith, has_key-erase j k es)

  pub erase-IsMap : (k : ℕ) (es : List (ℕ × V)) → IsMap es → IsMap (erase k es)
  erase-IsMap k [] h = tt
  erase-IsMap k (e ∷ es) h = elim (Bool-cases (e.0 == k)) [
    | inl same ↦ rw same h.1
    | inr other ↦ rw other (has_key-erase e.0 k es h.0, erase-IsMap k es h.1)
  ]

  pub lookup-erase_ne : (j k : ℕ) (es : List (ℕ × V)) → k ≢ j → lookup j (erase k es) ≡ lookup j es
  lookup-erase_ne j k [] ne = refl
  lookup-erase_ne j k (e ∷ es) ne = elim (Bool-cases (e.0 == k)) [
    | inl same ↦ rw (same, ne→== e.0 j (λ h. ne (sym (==→eq e.0 k same) ∙ h))) refl
    | inr other ↦ rw (other, lookup-erase_ne j k es ne) refl
  ]

  pub lookup-erase_self : (k : ℕ) (es : List (ℕ × V)) → IsMap es → lookup k (erase k es) ≡ none
  lookup-erase_self k [] h = refl
  lookup-erase_self k (e ∷ es) h = elim (Bool-cases (e.0 == k)) [
    | inl same ↦
        let key : e.0 ≡ k = ==→eq e.0 k same in
        rw same (lookup-has_key k es (ap (λ (x : ℕ). has_key x es) (sym key) ∙ h.0))
    | inr other ↦ rw (other, other) (lookup-erase_self k es h.1)
  ]

module _ {V : Type 0} where
  pub length-assign_absent :
      (k : ℕ) (v : V) (es : List (ℕ × V))
      → lookup k es ≡ none
      → length (assign k v es) ≡ suc (length es)
  length-assign_absent k v [] h = refl
  length-assign_absent k v (e ∷ es) h = elim (Bool-cases (e.0 == k)) [
    | inl same ↦ cc (rw same at h)
    | inr other ↦ rw other (ap suc (length-assign_absent k v es (rw other at h)))
  ]

  pub length-erase_present :
      (k : ℕ) (v : V) (es : List (ℕ × V))
      → lookup k es ≡ some v
      → suc (length (erase k es)) ≡ length es
  length-erase_present k v [] h = cc
  length-erase_present k v (e ∷ es) h = elim (Bool-cases (e.0 == k)) [
    | inl same ↦ rw same refl
    | inr other ↦ rw other (ap suc (length-erase_present k v es (rw other at h)))
  ]
