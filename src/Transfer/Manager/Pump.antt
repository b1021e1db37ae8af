-- ===== src/Transfer/Manager/Pump.antt =====
-- What `pump_send` of crates/ceky-transfer/src/manager.rs sends.
use native.Mathlib.Nat.{mul-le-mul_right}
use ceky_p2p.Common.{
  ℕ, zero, suc, ◌+◌, ◌-◌, ◌*◌, ◌%◌, ◌^◌, ◌≤◌, ◌<◌, ◌≡◌, refl, sym, ◌∙◌, ap, arith, min, ◌⊎◌, inl,
  inr, Bool, true, false, ◌&&◌, Bool-cases, some, List, [], ◌∷◌, ◌++◌, map, take, drop, length,
  length-drop, take_of_le, ltb, leb, if◌then◌else◌, lt→ltb, ge→ltb, le→leb,
}
use native.Mathlib.Decide.{ℕ_discrete}
use ceky_p2p.Common.Outcome.{ok}
use ceky_p2p.Dht.KBucket.Peers.{id_eq_self}
use ceky_p2p.Protocol.Types.{file_chunk, empty_flags, Frame, new_frame}
use ceky_p2p.Protocol.Transfer.{TransferId}
use ceky_p2p.Protocol.Transfer.Chunks.{encode_chunk}
use ceky_p2p.Protocol.Transfer.Bitmap.{bitmap_is_missing}
use ceky_p2p.Transfer.Merkle.{hash_chunk}
use ceky_p2p.Transfer.Manager.{
  SendingState, sending, TransferManager, lock_transfer, insert_transfer, chunk_frame, pump_step,
  pump_loop, pumped, pump_send,
}

-- Chunk i of a file.
abbrev pub chunk_of : List ℕ → ℕ → ℕ → List ℕ
chunk_of file chunk_size i = take chunk_size (drop (i * chunk_size) file)

-- The missing chunks among `left` many from i on.
abbrev pub missing_from : List ℕ → ℕ → ℕ → List ℕ
missing_from bitfield i zero = []
missing_from bitfield i (suc left) =
    if bitmap_is_missing bitfield i
    then i ∷ missing_from bitfield (i + 1) left
    else missing_from bitfield (i + 1) left

-- The file has less than 2^32 bytes, and its last chunk begins inside it.
abbrev pub IsSending : SendingState → Type 0
IsSending s =
    (length s.file_map < 2 ^ 32)
    × (s.total_chunks * s.chunk_size ≤ length s.file_map + s.chunk_size)

-- A range that the end of the file cuts short.
cut :
    (a c : ℕ) (file : List ℕ)
    → take (min (a + c) (length file) - a) (drop a file) ≡ take c (drop a file)
cut a c file =
    let rest = length-drop a file in
    elim (ℕ_discrete (min (a + c) (length file)) (a + c)) [
      | yes within ↦ let size : min (a + c) (length file) - a ≡ c = omega arith in rw size refl
      | no beyond ↦
          take_of_le (min (a + c) (length file) - a) (drop a file) (omega (arith, rest))
          ∙ sym (take_of_le c (drop a file) (omega (arith, rest)))
    ]

take_nil : (n : ℕ) → take {A = ℕ} n [] ≡ []
take_nil zero = refl
take_nil (suc n) = refl

take_cons : (n i : ℕ) (is : List ℕ) → 0 < n → take n (i ∷ is) ≡ i ∷ take (n - 1) is
take_cons zero i is h = absurd (omega arith)
take_cons (suc n) i is h = ap (λ m. i ∷ take m is) (omega arith)

-- The state after the pump: the credits are spent or the end is reached, and the rest is as it was.
abbrev pub HasPumped : SendingState → SendingState → List ℕ → Type 0
HasPumped s t chunks =
    (t.credits + length chunks ≡ s.credits)
    × ((t.credits ≡ 0) ⊎ (s.total_chunks ≤ t.current_chunk_idx))
    × (t ≡ record s { credits = t.credits; current_chunk_idx = t.current_chunk_idx })

module _ (sha256 : List ℕ → List ℕ) where
  -- The message with chunk i of the file.
  abbrev pub chunk_message : TransferId → SendingState → ℕ → ℕ × Frame
  chunk_message id s i = (
    s.peer,
    new_frame file_chunk empty_flags 0 (
        encode_chunk (record {
          transfer_id = id;
          chunk_index = i;
          chunk_hash = hash_chunk sha256 (chunk_of s.file_map s.chunk_size i);
          data_bytes = chunk_of s.file_map s.chunk_size i;
        })),
  )

  chunk_frame_lem :
      (id : TransferId) (s : SendingState)
      → IsSending s
      → s.current_chunk_idx < s.total_chunks
      → chunk_frame sha256 id s ≡ ok (chunk_message id s s.current_chunk_idx).1
  unfolding chunk_frame
  chunk_frame_lem id s h lt =
      let i = s.current_chunk_idx in
      let c = s.chunk_size in
      let n = length s.file_map in
      let within : i * c ≤ n = omega (arith, mul-le-mul_right c (lt), h.1) in
      let whole : i * c % 2 ^ 32 ≡ i * c = omega (arith, h.0) in
      let order : leb (i * c) (min (i * c + c) n) ≡ true =
        le→leb (i * c) (min (i * c + c) n) (omega arith) in
      let inside : leb (min (i * c + c) n) n ≡ true = le→leb (min (i * c + c) n) n (omega arith) in
      rw (whole, order, inside, cut (i * c) c s.file_map) refl

  abbrev going : SendingState → Bool
  going s = ltb 0 s.credits && ltb s.current_chunk_idx s.total_chunks

  pump_loop_stop :
      (id : TransferId) (left : ℕ) (s : SendingState)
      → going s ≡ false
      → pump_loop sha256 id (suc left) s ≡ ok (s, [])
  unfolding pump_loop
  pump_loop_stop id left s e = rw (pump_loop, e) refl

  pump_loop_go :
      (id : TransferId) (left : ℕ) (s t u : SendingState) (now later : List (ℕ × Frame))
      → going s ≡ true
      → pump_step sha256 id s ≡ ok (t, now)
      → pump_loop sha256 id left t ≡ ok (u, later)
      → pump_loop sha256 id (suc left) s ≡ ok (u, now ++ later)
  unfolding pump_loop
  pump_loop_go id left s t u now later e step rest = rw (pump_loop, e, step, rest) refl

  pump_loop_lem :
      (id : TransferId) (left : ℕ) (s : SendingState)
      → IsSending s
      → left ≡ s.total_chunks - s.current_chunk_idx
      → let chunks = take s.credits (missing_from s.bitfield s.current_chunk_idx left) in
        (t : SendingState) × (pump_loop sha256 id left s ≡ ok (t, map (chunk_message id s) chunks))
        × HasPumped s t chunks
  unfolding pump_loop pump_step
  pump_loop_lem id zero s h e =
      rw (take_nil s.credits) (s, refl, (omega arith, inr (omega arith), refl))
  pump_loop_lem id (suc left) s h e = elim (ℕ_discrete s.credits 0) [
    | yes spent ↦
        let stop : going s ≡ false = rw (ge→ltb 0 s.credits (omega arith)) refl in
        let nothing : take s.credits (missing_from s.bitfield s.current_chunk_idx (suc left)) ≡ [] =
          ap (λ n. take n (missing_from s.bitfield s.current_chunk_idx (suc left))) spent in
        rw nothing (s, pump_loop_stop id left s stop, (omega arith, inl spent, refl))
    | no some_left ↦
        let go : going s ≡ true =
          rw
            (
              lt→ltb 0 s.credits (omega arith),
              lt→ltb s.current_chunk_idx s.total_chunks (omega arith),
            )
            refl in
        let after = missing_from s.bitfield (s.current_chunk_idx + 1) left in
        elim (Bool-cases (bitmap_is_missing s.bitfield s.current_chunk_idx)) [
          | inl missing ↦
              let frame = chunk_frame_lem id s h (omega arith) in
              let next : SendingState = record s {
                credits = s.credits - 1;
                current_chunk_idx = s.current_chunk_idx + 1;
              } in
              let (t, went, (spent, stopped, kept)) = pump_loop_lem id left next h (omega arith) in
              let chunks : take s.credits (missing_from s.bitfield s.current_chunk_idx (suc left))
                  ≡ s.current_chunk_idx ∷ take (s.credits - 1) after =
                rw missing (take_cons s.credits s.current_chunk_idx after (omega arith)) in
              rw chunks (
                t,
                pump_loop_go id left s next t (chunk_message id s s.current_chunk_idx ∷ [])
                    (map (chunk_message id s) (take (s.credits - 1) after)) go
                    (rw (pump_step, missing, frame) refl) went,
                (omega (arith, spent), stopped, kept),
              )
          | inr held ↦
              let next : SendingState = record s { current_chunk_idx = s.current_chunk_idx + 1 } in
              let (t, went, (spent, stopped, kept)) = pump_loop_lem id left next h (omega arith) in
              let chunks : take s.credits (missing_from s.bitfield s.current_chunk_idx (suc left))
                  ≡ take s.credits after =
                rw held refl in
              rw chunks (
                t,
                pump_loop_go id left s next t [] (map (chunk_message id s) (take s.credits after))
                    go (rw (pump_step, held) refl) went,
                (spent, stopped, kept),
              )
        ]
  ]

  -- For a transfer that is being sent, of a file of less than 2^32 bytes whose last chunk begins inside it,
  -- and with no guard held on it, `pump_send` returns. It has sent the missing chunks from the current
  -- index on, in order and each with its bytes and their hash, as many as there were credits and no more;
  -- it has spent one credit for each, and stopped with none left or at the end of the file.
  pub pump_send_lem :
      (m : TransferManager) (id : TransferId) (s : SendingState)
      → lock_transfer m id ≡ ok (some (sending s))
      → IsSending s
      → let chunks =
          take s.credits
            (missing_from s.bitfield s.current_chunk_idx (s.total_chunks - s.current_chunk_idx)) in
        (t : SendingState) × (n : TransferManager) × (pump_send sha256 m id ≡ ok n)
        × (n.sent ≡ m.sent ++ map (chunk_message id s) chunks)
        × (n.active_transfers id ≡ some (sending t))
        × HasPumped s t chunks
  unfolding pump_send pumped insert_transfer
  pump_send_lem m id s found h =
      let left = s.total_chunks - s.current_chunk_idx in
      let (t, went, done) = pump_loop_lem id left s h refl in
      (
        t,
        record (insert_transfer m id (sending t)) {
          sent =
              m.sent
              ++ map (chunk_message id s)
                  (take s.credits (missing_from s.bitfield s.current_chunk_idx left));
        },
        rw (found, pumped, went) refl,
        refl,
        rw (id_eq_self id) refl,
        done,
      )
