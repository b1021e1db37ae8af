-- ===== src/Dht/Entry/Coding.antt =====
-- Entries of crates/ceky-dht/src/storage.rs are decoded as they were encoded, and no bytes make the
-- decoder panic.
use mathlib.Core.List.{append_assoc}
use ceky_p2p.Common.{
  ℕ, ◌+◌, ◌-◌, ◌%◌, ◌^◌, ◌<◌, ◌≤◌, ◌≡◌, refl, ap, ◌∙◌, arith, true, leb, le→leb, Bool-cases, inl,
  inr, List, ◌++◌, length, take, drop, length-append, take-append, take-append_of, drop-append_of,
  drop-drop,
}
use ceky_p2p.Common.Bytes.{be_bytes, length-be_bytes, from_be, from_be-be_bytes}
use ceky_p2p.Common.Outcome.{ok}
use ceky_p2p.Common.Reader.{Safe}
use ceky_p2p.Dht.Entry.{StoredEntry, encode, decode}

-- What the field types of an entry say of it, and that its value is shorter than 4 GiB.
pub record IsEntry (e : StoredEntry) : Type 0 where
  pub key_bytes : length e.key ≡ 32
  pub publisher_bytes : length e.publisher ≡ 32
  pub time_bits : e.expires_at < 2 ^ 64
  pub value_short : length e.value < 2 ^ 32

-- An entry is decoded from its encoding, whatever bytes follow.
pub decode-encode_append :
    (e : StoredEntry) (rest : List ℕ) → IsEntry e → decode (encode e ++ rest) ≡ ok e
unfolding decode encode
decode-encode_append e rest h = rw grouped (
    rw
      (
        fits 76 (omega arith),
        fits 32 (omega arith),
        fits 64 (omega arith),
        fits 72 (omega arith),
        take-append_of 32 e.key after_key h.key_bytes,
        at_publisher,
        take-append_of 32 e.publisher after_publisher h.publisher_bytes,
        at_time,
        take-append_of 8 time after_time (length-be_bytes 8 e.expires_at),
        at_length,
        take-append_of 4 len (e.value ++ rest) (length-be_bytes 4 _),
        from_be-be_bytes 8 e.expires_at h.time_bits,
        val_len,
        all_fits,
        less,
        at_value,
        take-append e.value rest,
      )
      refl)
  where
    time : List ℕ
    time = be_bytes 8 e.expires_at

    len : List ℕ
    len = be_bytes 4 (length e.value % 2 ^ 32)

    after_time : List ℕ
    after_time = len ++ (e.value ++ rest)

    after_publisher : List ℕ
    after_publisher = time ++ after_time

    after_key : List ℕ
    after_key = e.publisher ++ after_publisher

    grouped : encode e ++ rest ≡ e.key ++ after_key
    grouped = simp append_assoc

    size : length (e.key ++ after_key) ≡ 76 + length e.value + length rest
    size = omega (
      arith,
      h.key_bytes,
      h.publisher_bytes,
      length-append e.key after_key,
      length-append e.publisher after_publisher,
      length-append time after_time,
      length-append len (e.value ++ rest),
      length-append e.value rest,
      length-be_bytes 8 e.expires_at,
      length-be_bytes 4 (length e.value % 2 ^ 32),
    )

    fits : (n : ℕ) → n ≤ 76 → leb n (length (e.key ++ after_key)) ≡ true
    fits n small = le→leb n _ (omega (arith, size))

    all_fits : leb (76 + length e.value) (length (e.key ++ after_key)) ≡ true
    all_fits = le→leb _ _ (omega (arith, size))

    at_publisher : drop 32 (e.key ++ after_key) ≡ after_key
    at_publisher = drop-append_of 32 e.key after_key h.key_bytes

    at_time : drop 64 (e.key ++ after_key) ≡ after_publisher
    at_time =
        drop-drop 32 32 (e.key ++ after_key)
        ∙ ap (drop 32) at_publisher
        ∙ drop-append_of 32 e.publisher after_publisher h.publisher_bytes

    at_length : drop 72 (e.key ++ after_key) ≡ after_time
    at_length =
        drop-drop 64 8 (e.key ++ after_key)
        ∙ ap (drop 8) at_time
        ∙ drop-append_of 8 time after_time (length-be_bytes 8 e.expires_at)

    at_value : drop 76 (e.key ++ after_key) ≡ e.value ++ rest
    at_value =
        drop-drop 72 4 (e.key ++ after_key)
        ∙ ap (drop 4) at_length
        ∙ drop-append_of 4 len (e.value ++ rest) (length-be_bytes 4 _)

    val_len : from_be len ≡ length e.value
    val_len =
        from_be-be_bytes 4 (length e.value % 2 ^ 32) (omega arith) ∙ omega (arith, h.value_short)

    less : 76 + length e.value - 76 ≡ length e.value
    less = omega arith

-- No bytes make the decoder panic.
pub decode-Safe : (payload : List ℕ) → Safe (decode payload)
unfolding decode
decode-Safe payload = elim (Bool-cases (leb 76 (length payload))) [
  | inr short ↦ rw short (λ e. cc)
  | inl long ↦
      let low : 76 ≤ length payload = ground (arith, long) in
      let n = from_be (take 4 (drop 72 payload)) in
      elim (Bool-cases (leb (76 + n) (length payload))) [
        | inr short ↦
            rw
              (
                long,
                le→leb 32 (length payload) (omega arith),
                le→leb 64 (length payload) (omega arith),
                le→leb 72 (length payload) (omega arith),
                short,
              )
              (λ e. cc)
        | inl fits ↦
            rw
              (
                long,
                le→leb 32 (length payload) (omega arith),
                le→leb 64 (length payload) (omega arith),
                le→leb 72 (length payload) (omega arith),
                fits,
              )
              (λ e. cc)
      ]
]
