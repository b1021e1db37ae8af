-- ===== src/Protocol/Transfer/Total.antt =====
-- No decoder of crates/ceky-protocol/src/transfer.rs panics, whatever the bytes.
use ceky_p2p.Common.{
  ℕ, ◌+◌, ◌≤◌, ◌≡◌, arith, not, ◌&&◌, ◌==◌, List, length, leb, Bool-cases, inl, inr,
}
use ceky_p2p.Common.Outcome.{Outcome, ok, ◌>>=◌, ◌>>◌, bind-ok, guard, get_be, get_bytes}
use ceky_p2p.Common.Reader.{
  Safe, bind-Safe, get_bytes-Safe, get_be-length, get_bytes-length, guard-Safe, get_be-then,
  get_bytes-then, ensured, known-Safe,
}
use ceky_p2p.Protocol.Transfer.Utf8.{is_utf8}
use ceky_p2p.Protocol.Transfer.{
  TransferError, TransferId, invalid_field, invalid_file_name, chunk_size_field, file_name_field,
  missing_bitmap_field, unsupported_version, buffer_too_short, read_transfer_id, read_fixed,
  decode_start, decode_offer, decode_accept,
}
use ceky_p2p.Protocol.Transfer.Chunks.{
  decode_reject, decode_chunk, decode_ack, decode_complete, decode_cancel, reject_from_byte,
  status_from_byte, cancel_from_byte,
}

read_fixed-Safe : (buf : List ℕ) → Safe (read_fixed buf)
unfolding read_fixed
read_fixed-Safe buf =
    guard-Safe (leb 32 (length buf)) (buffer_too_short 32 (length buf)) (get_bytes 32 buf)
      (λ h. get_bytes-Safe 32 buf (ensured 32 buf h))

read_fixed-length :
    (buf : List ℕ) (r : List ℕ × List ℕ) → read_fixed buf ≡ ok r → 32 + length r.1 ≡ length buf
unfolding read_fixed
read_fixed-length buf r e = elim (Bool-cases (leb 32 (length buf))) [
  | inr short ↦ cc (rw short at e)
  | inl long ↦ get_bytes-length 32 buf r (rw long at e)
]

read_fixed-then :
    {A : Type 0} (buf : List ℕ) (f : List ℕ × List ℕ → Outcome TransferError A)
    → ((r : List ℕ × List ℕ) → 32 + length r.1 ≡ length buf → Safe (f r))
    → Safe (read_fixed buf >>= f)
read_fixed-then buf f k =
    bind-Safe (read_fixed buf) f (read_fixed-Safe buf) (λ r e. k r (read_fixed-length buf r e))

read_transfer_id-Safe : (buf : List ℕ) → Safe (read_transfer_id buf)
unfolding read_transfer_id
read_transfer_id-Safe buf =
    guard-Safe (leb 16 (length buf)) (buffer_too_short 16 (length buf)) (get_bytes 16 buf)
      (λ h. get_bytes-Safe 16 buf (ensured 16 buf h))

decode_start-Safe : (needed : ℕ) (p : List ℕ) → 1 ≤ needed → Safe (decode_start needed p)
unfolding decode_start
decode_start-Safe needed p h =
    guard-Safe (leb needed (length p)) (buffer_too_short needed (length p))
      (get_be 1 p >>= λ r. guard (r.0 == 1) (unsupported_version r.0) >> read_transfer_id r.1)
      (λ long.
        get_be-then 1 p (λ r. guard (r.0 == 1) (unsupported_version r.0) >> read_transfer_id r.1)
          (omega (arith, ensured needed p long, h))
          (λ r e.
            guard-Safe (r.0 == 1) (unsupported_version r.0) (read_transfer_id r.1)
              (λ v. read_transfer_id-Safe r.1)))

read_transfer_id-length :
    (buf : List ℕ) (r : TransferId × List ℕ)
    → read_transfer_id buf ≡ ok r
    → 16 + length r.1 ≡ length buf
unfolding read_transfer_id
read_transfer_id-length buf r e = elim (Bool-cases (leb 16 (length buf))) [
  | inr short ↦ cc (rw short at e)
  | inl long ↦ get_bytes-length 16 buf r (rw long at e)
]

decode_start-length :
    (needed : ℕ) (p : List ℕ) (r : TransferId × List ℕ)
    → decode_start needed p ≡ ok r
    → needed ≤ 17 + length r.1
unfolding decode_start
decode_start-length needed p r e = elim (Bool-cases (leb needed (length p))) [
  | inr short ↦ cc (rw short at e)
  | inl long ↦
      let (v, got, later) =
        bind-ok (get_be 1 p)
          (λ x. guard (x.0 == 1) (unsupported_version x.0) >> read_transfer_id x.1) r
          (rw long at e) in
      elim (Bool-cases (v.0 == 1)) [
        | inr other ↦ cc (rw other at later)
        | inl same ↦ omega (
          arith,
          ensured needed p long,
          get_be-length 1 p v got,
          read_transfer_id-length v.1 r (rw same at later),
        )
      ]
]

decode_start-then :
    {A : Type 0} (needed : ℕ) (p : List ℕ) (f : TransferId × List ℕ → Outcome TransferError A)
    → 1 ≤ needed
    → ((r : TransferId × List ℕ) → needed ≤ 17 + length r.1 → Safe (f r))
    → Safe (decode_start needed p >>= f)
decode_start-then needed p f h k =
    bind-Safe (decode_start needed p) f (decode_start-Safe needed p h)
      (λ r e. k r (decode_start-length needed p r e))

-- Reading an offer never panics.
pub decode_offer-Safe : (p : List ℕ) → Safe (decode_offer p)
unfolding decode_offer
decode_offer-Safe p = decode_start-then 67 p _ (omega arith) (λ start h0.
    get_be-then 8 start.1 _ (omega arith) (λ size h1.
      get_be-then 4 size.1 _ (omega arith) (λ chunk h2.
        get_be-then 4 chunk.1 _ (omega arith) (λ total h3. read_fixed-then total.1 _ (λ hash h4.
          get_be-then 2 hash.1 _ (omega arith) (λ name h5.
            guard-Safe (leb name.0 255) (invalid_field file_name_field) _ (λ g1.
              guard-Safe (leb name.0 (length name.1)) (buffer_too_short name.0 (length name.1)) _
                (λ g2. get_bytes-then name.0 name.1 _ (ensured name.0 name.1 g2) (λ text h6.
                  guard-Safe (is_utf8 text.0) invalid_file_name _ (λ g3.
                    guard-Safe (not (chunk.0 == 0)) (invalid_field chunk_size_field) _
                      (λ g4. λ e. cc)))))))))))

-- Reading an acceptance never panics.
pub decode_accept-Safe : (p : List ℕ) → Safe (decode_accept p)
unfolding decode_accept
decode_accept-Safe p = decode_start-then 22 p _ (omega arith) (λ start h0.
    get_be-then 1 start.1 _ (omega arith) (λ flag h1.
      get_be-then 4 flag.1 _ (omega arith) (λ len h2.
        guard-Safe (not (not (not (flag.0 == 0)) && not (len.0 == 0)))
          (invalid_field missing_bitmap_field) _
          (λ g1.
            guard-Safe (leb len.0 (length len.1)) (buffer_too_short len.0 (length len.1)) _
              (λ g2. get_bytes-then len.0 len.1 _ (ensured len.0 len.1 g2) (λ bits h3. λ e. cc))))))

-- Reading a chunk never panics.
pub decode_chunk-Safe : (p : List ℕ) → Safe (decode_chunk p)
unfolding decode_chunk
decode_chunk-Safe p = decode_start-then 53 p _ (omega arith) (λ start h0.
    get_be-then 4 start.1 _ (omega arith)
      (λ index h1. read_fixed-then index.1 _ (λ hash h2. λ e. cc)))

pub decode_complete-Safe : (p : List ℕ) → Safe (decode_complete p)
unfolding decode_complete
decode_complete-Safe p =
    decode_start-then 49 p _ (omega arith)
      (λ start h0. read_fixed-then start.1 _ (λ hash h1. λ e. cc))

status_from_byte-Safe : (v : ℕ) → Safe (status_from_byte v)
unfolding status_from_byte
status_from_byte-Safe v = λ e. ground arith

reject_from_byte-Safe : (v : ℕ) → Safe (reject_from_byte v)
unfolding reject_from_byte
reject_from_byte-Safe v = λ e. ground arith

cancel_from_byte-Safe : (v : ℕ) → Safe (cancel_from_byte v)
unfolding cancel_from_byte
cancel_from_byte-Safe v = λ e. ground arith

pub decode_ack-Safe : (p : List ℕ) → Safe (decode_ack p)
unfolding decode_ack
decode_ack-Safe p = decode_start-then 22 p _ (omega arith) (λ start h0.
    get_be-then 4 start.1 _ (omega arith) (λ index h1.
      get_be-then 1 index.1 _ (omega arith)
        (λ value h2. known-Safe (status_from_byte value.0) _ (status_from_byte-Safe value.0))))

pub decode_reject-Safe : (p : List ℕ) → Safe (decode_reject p)
unfolding decode_reject
decode_reject-Safe p = decode_start-then 18 p _ (omega arith) (λ start h0.
    get_be-then 1 start.1 _ (omega arith)
      (λ value h1. known-Safe (reject_from_byte value.0) _ (reject_from_byte-Safe value.0)))

pub decode_cancel-Safe : (p : List ℕ) → Safe (decode_cancel p)
unfolding decode_cancel
decode_cancel-Safe p = decode_start-then 18 p _ (omega arith) (λ start h0.
    get_be-then 1 start.1 _ (omega arith)
      (λ value h1. known-Safe (cancel_from_byte value.0) _ (cancel_from_byte-Safe value.0)))

-- Whatever the bytes, none of the seven decoders panics.
pub decode-Safe :
    (p : List ℕ)
    → Safe (decode_offer p)
      × Safe (decode_accept p)
      × Safe (decode_reject p)
      × Safe (decode_chunk p)
      × Safe (decode_ack p)
      × Safe (decode_complete p)
      × Safe (decode_cancel p)
decode-Safe p = (
  decode_offer-Safe p,
  decode_accept-Safe p,
  decode_reject-Safe p,
  decode_chunk-Safe p,
  decode_ack-Safe p,
  decode_complete-Safe p,
  decode_cancel-Safe p,
)
