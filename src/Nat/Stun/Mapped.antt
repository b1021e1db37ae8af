-- ===== src/Nat/Stun/Mapped.antt =====
-- What crates/ceky-nat/src/stun.rs reads from the response of a server: attributes of other kinds are
-- skipped, and the mapped address is found behind them.
use mathlib.Core.List.{append_assoc}
use ceky_p2p.Common.{
  ℕ, zero, suc, ◌+◌, ◌-◌, ◌*◌, ◌/◌, ◌^◌, ◌≤◌, ◌<◌, ◌≡◌, ◌≢◌, refl, sym, ap, subst, ◌∙◌, arith, inl,
  inr, true, some, List, [], ◌∷◌, ◌++◌, leb, le→leb, ne→==, length, replicate, All, length-append,
  length-replicate, take-append_of, drop-append_of,
}
use ceky_p2p.Common.Bytes.{be_bytes, length-be_bytes, from_be-be_bytes}
use ceky_p2p.Common.Outcome.{Outcome, ok, read_be, slice}
use ceky_p2p.Protocol.Find.{SocketAddr}
use ceky_p2p.Nat.Relay.{NatError}
use ceky_p2p.Nat.Stun.{
  binding_response, magic_cookie, attr_mapped_address, attr_xor_mapped_address, attribute_value,
  attribute, go_on, attributes,
}

-- Reading in the middle of a packet.
read_be_at :
    {E : Type 0} (n v i : ℕ) (before after : List ℕ)
    → length before ≡ i
    → v < 256 ^ n
    → ◌≡◌ {A = Outcome E ℕ} (read_be n (before ++ (be_bytes n v ++ after)) i) (ok v)
read_be_at n v i before after e h =
    let there = be_bytes n v ++ after in
    let fits : leb (i + n) (length (before ++ there)) ≡ true = le→leb _ _ (
      omega (
        arith,
        length-append before there,
        length-append (be_bytes n v) after,
        length-be_bytes n v,
        e,
      )) in
    rw
      (
        fits,
        drop-append_of i before there e,
        take-append_of n (be_bytes n v) after (length-be_bytes n v),
        from_be-be_bytes n v h,
      )
      refl

slice_at :
    {E : Type 0} (from to : ℕ) (before middle after : List ℕ)
    → length before ≡ from
    → from + length middle ≡ to
    → ◌≡◌ {A = Outcome E (List ℕ)} (slice from to (before ++ (middle ++ after))) (ok middle)
slice_at from to before middle after e h =
    let there = middle ++ after in
    let fits : leb to (length (before ++ there)) ≡ true =
      le→leb _ _ (omega (arith, length-append before there, length-append middle after, e)) in
    let size : length middle ≡ to - from = omega arith in
    rw (fits, drop-append_of from before there e, take-append_of (to - from) middle after size) refl

-- The bytes to the next multiple of four.
abbrev pub padding : ℕ → ℕ
padding n = (n + 3) / 4 * 4 - n

-- An attribute as a server writes it (RFC 5389, section 15).
abbrev pub attribute_bytes : ℕ → List ℕ → List ℕ
attribute_bytes attr_type value =
    be_bytes 2 attr_type
    ++ (be_bytes 2 (length value) ++ (value ++ replicate (padding (length value)) 0))

-- The bytes of a whole response (section 6).
abbrev pub response_bytes : List ℕ → List ℕ → List ℕ
response_bytes txn_id body =
    be_bytes 2 binding_response
    ++ (be_bytes 2 (length body) ++ (be_bytes 4 magic_cookie ++ (txn_id ++ body)))

-- The header of an attribute is read, and its value is in the packet.
attribute_at :
    (t i end : ℕ) (before value rest : List ℕ)
    → length before ≡ i
    → t < 2 ^ 16
    → length value < 2 ^ 16
    → i + 4 + length value ≤ end
    → let bytes = before ++ (be_bytes 2 t ++ (be_bytes 2 (length value) ++ (value ++ rest))) in
      (attribute bytes i end ≡ attribute_value t (length value) (i + 4) bytes)
      × (slice {E = NatError} (i + 4) (i + 4 + length value) bytes ≡ ok value)
unfolding attribute
attribute_at t i end before value rest e ht hv room =
    let type = be_bytes 2 t in
    let len = be_bytes 2 (length value) in
    let bytes = before ++ (type ++ (len ++ (value ++ rest))) in
    let split1 : bytes ≡ (before ++ type) ++ (len ++ (value ++ rest)) =
      sym (append_assoc before type (len ++ (value ++ rest))) in
    let split2 : bytes ≡ ((before ++ type) ++ len) ++ (value ++ rest) =
      split1 ∙ sym (append_assoc (before ++ type) len (value ++ rest)) in
    let at1 : length (before ++ type) ≡ i + 2 =
      omega (arith, length-append before type, length-be_bytes 2 t, e) in
    let at2 : length ((before ++ type) ++ len) ≡ i + 4 =
      omega (arith, length-append (before ++ type) len, length-be_bytes 2 (length value), at1) in
    let read1 : read_be {E = NatError} 2 bytes i ≡ ok t =
      read_be_at 2 t i before (len ++ (value ++ rest)) e (omega arith) in
    let read2 : read_be {E = NatError} 2 bytes (i + 2) ≡ ok (length value) =
      subst (λ (x : List ℕ). read_be {E = NatError} 2 x (i + 2) ≡ ok (length value)) (sym split1)
        (read_be_at 2 (length value) (i + 2) (before ++ type) (value ++ rest) at1 (omega arith)) in
    (
      rw (attribute, read1, read2, le→leb _ _ room) refl,
      subst (λ (x : List ℕ). slice {E = NatError} (i + 4) (i + 4 + length value) x ≡ ok value)
          (sym split2)
          (slice_at (i + 4) (i + 4 + length value) ((before ++ type) ++ len) value rest at2 refl),
    )

-- A kind of attribute that the parser does not know, with a value of 16 bits' length.
abbrev pub IsUnknown : ℕ × List ℕ → Type 0
IsUnknown a =
    (a.0 < 2 ^ 16)
    × (length a.1 < 2 ^ 16)
    × (a.0 ≢ attr_xor_mapped_address)
    × (a.0 ≢ attr_mapped_address)

abbrev pub all_bytes : List (ℕ × List ℕ) → List ℕ
all_bytes [] = []
all_bytes (a ∷ as_list) = attribute_bytes a.0 a.1 ++ all_bytes as_list

pub length-attribute_bytes :
    (t : ℕ) (value : List ℕ) → length (attribute_bytes t value) ≡ 4 + (length value + 3) / 4 * 4
length-attribute_bytes t value =
    let pad : List ℕ = replicate (padding (length value)) 0 in
    omega (
      arith,
      length-append (be_bytes 2 t) (be_bytes 2 (length value) ++ (value ++ pad)),
      length-append (be_bytes 2 (length value)) (value ++ pad),
      length-append value pad,
      length-replicate {A = ℕ} (padding (length value)) 0,
      length-be_bytes 2 t,
      length-be_bytes 2 (length value),
    )

regroup :
    (t : ℕ) (value rest : List ℕ)
    → attribute_bytes t value ++ rest
      ≡ be_bytes 2 t
        ++ (be_bytes 2 (length value) ++ (value ++ (replicate (padding (length value)) 0 ++ rest)))
regroup t value rest = simp append_assoc

attribute_value-unknown :
    (a : ℕ × List ℕ) (n offset : ℕ) (bytes : List ℕ)
    → IsUnknown a
    → attribute_value a.0 n offset bytes ≡ ok (inl (offset + (n + 3) / 4 * 4))
unfolding attribute_value
attribute_value-unknown a n offset bytes u = rw (ne→== _ _ u.2, ne→== _ _ u.3) refl

module _ (t : ℕ) (value : List ℕ) (addr : SocketAddr) (rest : List ℕ) (small : t < 2 ^ 16)
    (short : length value < 2 ^ 16)
    (shows : (bytes : List ℕ) (offset : ℕ)
      → slice {E = NatError} offset (offset + length value) bytes ≡ ok value
      → attribute_value t (length value) offset bytes ≡ ok (inr addr)) where
  -- The loop skips what it does not know and ends at the attribute that shows the address.
  pub attributes_found :
      (unknown : List (ℕ × List ℕ)) (fuel i end : ℕ) (before : List ℕ)
      → length before ≡ i
      → All IsUnknown unknown
      → i + length (all_bytes unknown) + 4 + length value ≤ end
      → length unknown < fuel
      → attributes fuel (before ++ (all_bytes unknown ++ (attribute_bytes t value ++ rest))) i end
        ≡ some (ok addr)
  unfolding attributes go_on
  attributes_found unknown zero i end before e u room many = absurd (omega arith)
  attributes_found [] (suc fuel) i end before e u room many =
      let after = replicate (padding (length value)) 0 ++ rest in
      let (reads, there) = attribute_at t i end before value after e small short (omega arith) in
      rw
        (
          attributes,
          le→leb (i + 4) end (omega arith),
          regroup t value rest,
          reads ∙ shows _ (i + 4) there,
        )
        refl
  attributes_found (a ∷ more) (suc fuel) i end before e u room many =
      let final = attribute_bytes t value ++ rest in
      let block = attribute_bytes a.0 a.1 in
      let after = replicate (padding (length a.1)) 0 ++ (all_bytes more ++ final) in
      let size = length-append block (all_bytes more) in
      let wide = length-attribute_bytes a.0 a.1 in
      let grouped : (block ++ all_bytes more) ++ final
          ≡ be_bytes 2 a.0 ++ (be_bytes 2 (length a.1) ++ (a.1 ++ after)) =
        append_assoc block (all_bytes more) final ∙ regroup a.0 a.1 (all_bytes more ++ final) in
      let (reads, _) =
        attribute_at a.0 i end before a.1 after e u.0.0 u.0.1 (omega (arith, size, wide)) in
      let back : before ++ (be_bytes 2 a.0 ++ (be_bytes 2 (length a.1) ++ (a.1 ++ after)))
          ≡ (before ++ block) ++ (all_bytes more ++ final) =
        ap (◌++◌ before) (sym (regroup a.0 a.1 (all_bytes more ++ final)))
        ∙ sym (append_assoc before block (all_bytes more ++ final)) in
      let next = i + 4 + (length a.1 + 3) / 4 * 4 in
      let ih : attributes fuel ((before ++ block) ++ (all_bytes more ++ final)) next end
          ≡ some (ok addr) =
        attributes_found more fuel next end (before ++ block)
          (omega (arith, length-append before block, wide, e)) u.1 (omega (arith, size, wide))
          (omega arith) in
      rw
        (
          attributes,
          le→leb (i + 4) end (omega (arith, size, wide)),
          grouped,
          reads ∙ attribute_value-unknown a (length a.1) (i + 4) _ u.0,
          back,
          ih,
        )
        refl
