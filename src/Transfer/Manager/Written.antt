-- ===== src/Transfer/Manager/Written.antt =====
-- What the chunks of crates/ceky-transfer/src/manager.rs leave in a file, written in any order.
use native.Mathlib.Nat.{div-mul-le_self, lt-div-mul-add}
use mathlib.Core.Path.{ap₂}
use ceky_p2p.Common.{
  ℕ, zero, suc, ◌+◌, ◌-◌, ◌*◌, ◌/◌, ◌%◌, ◌^◌, ◌≤◌, ◌<◌, ◌≡◌, refl, sym, ◌∙◌, ap, arith, true, List,
  [], ◌∷◌, map, take, drop, get_or, length, length-take, length-drop, min, any, All, ◌==◌, ==→eq,
  Bool-cases, inl, inr, ◌⊎◌,
}
use ceky_p2p.Protocol.Transfer.{TransferId}
use ceky_p2p.Protocol.Transfer.Chunks.{FileChunk}
use ceky_p2p.Transfer.Merkle.{hash_chunk}
use ceky_p2p.Transfer.Manager.{ReceivingState, write_at, chunk_stored}
use ceky_p2p.Transfer.Manager.Pump.{chunk_of}
use ceky_p2p.Transfer.Manager.Counted.{write_at_lem}

get_or-take : (n k : ℕ) (xs : List ℕ) → k < n → get_or (take n xs) k 0 ≡ get_or xs k 0
get_or-take zero k xs h = absurd (omega arith)
get_or-take (suc n) k [] h = refl
get_or-take (suc n) zero (x ∷ xs) h = refl
get_or-take (suc n) (suc k) (x ∷ xs) h = get_or-take n k xs (omega arith)

get_or-drop : (n k : ℕ) (xs : List ℕ) → get_or (drop n xs) k 0 ≡ get_or xs (n + k) 0
get_or-drop zero k xs = ap (λ i. get_or xs i 0) (omega arith)
get_or-drop (suc n) k [] = refl
get_or-drop (suc n) k (x ∷ xs) =
    get_or-drop n k xs
    ∙ (let place : suc (n + k) ≡ suc n + k = omega arith in ap (λ i. get_or (x ∷ xs) i 0) place)

-- Lists of one length that agree everywhere are the same.
list_ext :
    (xs ys : List ℕ)
    → length xs ≡ length ys
    → ((k : ℕ) → k < length xs → get_or xs k 0 ≡ get_or ys k 0)
    → xs ≡ ys
list_ext [] [] len same = refl
list_ext [] (y ∷ ys) len same = absurd (omega arith)
list_ext (x ∷ xs) [] len same = absurd (omega arith)
list_ext (x ∷ xs) (y ∷ ys) len same =
    ap₂ ◌∷◌ (same 0 (omega arith))
      (list_ext xs ys (omega arith) (λ k h. same (suc k) (omega arith)))

below_or_not : (a b : ℕ) → (a < b) ⊎ (b ≤ a)
below_or_not a zero = inr (omega arith)
below_or_not zero (suc b) = inl (omega arith)
below_or_not (suc a) (suc b) = elim (below_or_not a b) [
  | inl less ↦ inl (omega arith)
  | inr more ↦ inr (omega arith)
]

-- What is at place k after a write.
module _ (start : ℕ) (bytes file : List ℕ) (fits : start + length bytes ≤ length file) where
  write_at-inside :
      (k : ℕ)
      → k < length bytes
      → get_or (write_at start bytes file) (start + k) 0 ≡ get_or bytes k 0
  write_at-inside k h =
      let (_, middle, _, _) = write_at_lem start bytes file fits in
      sym (get_or-drop start k (write_at start bytes file))
      ∙ sym (get_or-take (length bytes) k (drop start (write_at start bytes file)) h)
      ∙ ap (λ ys. get_or ys k 0) middle

  write_at-before : (k : ℕ) → k < start → get_or (write_at start bytes file) k 0 ≡ get_or file k 0
  write_at-before k h =
      let (front, _, _, _) = write_at_lem start bytes file fits in
      sym (get_or-take start k (write_at start bytes file) h)
      ∙ ap (λ ys. get_or ys k 0) front
      ∙ get_or-take start k file h

  write_at-behind :
      (k : ℕ)
      → get_or (write_at start bytes file) (start + length bytes + k) 0
        ≡ get_or file (start + length bytes + k) 0
  write_at-behind k =
      let (_, _, behind, _) = write_at_lem start bytes file fits in
      sym (get_or-drop (start + length bytes) k (write_at start bytes file))
      ∙ ap (λ ys. get_or ys k 0) behind
      ∙ get_or-drop (start + length bytes) k file

-- The state with chunks written one after the other.
unfoldable pub deliver : (List ℕ → List ℕ) → ReceivingState → List FileChunk → ReceivingState
deliver sha256 r [] = r
deliver sha256 r (x ∷ xs) = deliver sha256 (chunk_stored sha256 r x) xs

-- Place k of the file is right after chunk i is written, if it was before or lies in this chunk.
written_place :
    (file before : List ℕ) (c i k : ℕ)
    → length before ≡ length file
    → i * c < length file
    → k < length file
    → (get_or before k 0 ≡ get_or file k 0) ⊎ ((i * c ≤ k) × (k < i * c + c))
    → get_or (write_at (i * c) (chunk_of file c i) before) k 0 ≡ get_or file k 0
written_place file before c i k len begins inside right =
    let bytes = chunk_of file c i in
    let size : length bytes ≡ min c (length file - i * c) =
      length-take c (drop (i * c) file) ∙ ap (min c) (length-drop (i * c) file) in
    let fits : i * c + length bytes ≤ length before = omega (arith, size) in
    elim (below_or_not k (i * c)) [
      | inl early ↦
          write_at-before (i * c) bytes before fits k early
          ∙ elim right [ inl same ↦ same | inr hit ↦ absurd (omega (arith, hit.0)) ]
      | inr late ↦ elim (below_or_not k (i * c + length bytes)) [
        | inl within ↦
            let place : i * c + (k - i * c) ≡ k = omega arith in
            let read =
              write_at-inside (i * c) bytes before fits (k - i * c) (omega arith)
              ∙ get_or-take c (k - i * c) (drop (i * c) file) (omega (arith, size))
              ∙ get_or-drop (i * c) (k - i * c) file in
            rw place at read
        | inr beyond ↦
            let place : i * c + length bytes + (k - (i * c + length bytes)) ≡ k = omega arith in
            let kept = write_at-behind (i * c) bytes before fits (k - (i * c + length bytes)) in
            (rw place at kept)
            ∙ elim right [ inl same ↦ same | inr hit ↦ absurd (omega (arith, size, hit.0, hit.1)) ]
      ]
    ]

module _ (sha256 : List ℕ → List ℕ) (id : TransferId) (file : List ℕ) where
  -- Chunk i of the file, as `pump_send` makes it.
  abbrev pub chunk_at : ℕ → ℕ → FileChunk
  chunk_at c i = record {
    transfer_id = id;
    chunk_index = i;
    chunk_hash = hash_chunk sha256 (chunk_of file c i);
    data_bytes = chunk_of file c i;
  }

  pub chunk_stored-file_map :
      (r : ReceivingState) (i : ℕ)
      → length file < 2 ^ 32
      → length r.file_map ≡ length file
      → i * r.chunk_size < length file
      → let t = chunk_stored sha256 r (chunk_at r.chunk_size i) in
        (t.file_map ≡ write_at (i * r.chunk_size) (chunk_of file r.chunk_size i) r.file_map)
        × (length t.file_map ≡ length file)
  unfolding chunk_stored
  chunk_stored-file_map r i small len begins =
      let c = r.chunk_size in
      let whole : i * c % 2 ^ 32 ≡ i * c = omega (arith, begins, small) in
      let size : length (chunk_of file c i) ≡ min c (length file - i * c) =
        length-take c (drop (i * c) file) ∙ ap (min c) (length-drop (i * c) file) in
      let (_, _, _, kept) =
        write_at_lem (i * c) (chunk_of file c i) r.file_map (omega (arith, size, begins, len)) in
      rw whole (refl, kept ∙ len)

  length-deliver :
      (r : ReceivingState) (indices : List ℕ)
      → length file < 2 ^ 32
      → length r.file_map ≡ length file
      → All (λ i. i * r.chunk_size < length file) indices
      → length (deliver sha256 r (map (chunk_at r.chunk_size) indices)).file_map ≡ length file
  unfolding deliver chunk_stored
  length-deliver r [] small len inside = len
  length-deliver r (i ∷ indices) small len inside =
      length-deliver (chunk_stored sha256 r (chunk_at r.chunk_size i)) indices small
        (chunk_stored-file_map r i small len inside.0).1 inside.1

  deliver_place :
      (r : ReceivingState) (indices : List ℕ) (k : ℕ)
      → length file < 2 ^ 32
      → length r.file_map ≡ length file
      → 0 < r.chunk_size
      → All (λ i. i * r.chunk_size < length file) indices
      → k < length file
      → (get_or r.file_map k 0 ≡ get_or file k 0)
        ⊎ (any (λ i. i == k / r.chunk_size) indices ≡ true)
      → let t = deliver sha256 r (map (chunk_at r.chunk_size) indices) in
        get_or t.file_map k 0 ≡ get_or file k 0
  unfolding deliver chunk_stored
  deliver_place r [] k small len pos inside below (inl same) = same
  deliver_place r [] k small len pos inside below (inr found) = cc
  deliver_place r (i ∷ indices) k small len pos inside below right =
      let c = r.chunk_size in
      let t = chunk_stored sha256 r (chunk_at c i) in
      let (wrote, kept) = chunk_stored-file_map r i small len inside.0 in
      let place : (get_or r.file_map k 0 ≡ get_or file k 0) ⊎ ((i * c ≤ k) × (k < i * c + c))
          → get_or t.file_map k 0 ≡ get_or file k 0 =
        λ before.
          ap (λ ys. get_or ys k 0) wrote
          ∙ written_place file r.file_map c i k len inside.0 below before in
      deliver_place t indices k small kept pos inside.1 below (elim right [
        | inl same ↦ inl (place (inl same))
        | inr found ↦ elim (Bool-cases (i == k / c)) [
          | inl here ↦
              let at : i ≡ k / c = ==→eq i (k / c) here in
              let after : k < k / c * c + c = lt-div-mul-add pos in
              let from : k / c * c ≤ k = div-mul-le_self k c in
              inl (place (inr (rw at (from, after))))
          | inr elsewhere ↦ inr (rw elsewhere at found)
        ]
      ])

  -- Once each chunk is written, in any order, it is the file.
  pub deliver-whole :
      (r : ReceivingState) (indices : List ℕ)
      → length file < 2 ^ 32
      → length r.file_map ≡ length file
      → 0 < r.chunk_size
      → All (λ i. i * r.chunk_size < length file) indices
      → ((i : ℕ) → i * r.chunk_size < length file → any (λ j. j == i) indices ≡ true)
      → (deliver sha256 r (map (chunk_at r.chunk_size) indices)).file_map ≡ file
  deliver-whole r indices small len pos inside all =
      let t = deliver sha256 r (map (chunk_at r.chunk_size) indices) in
      let same_length = length-deliver r indices small len inside in
      list_ext t.file_map file same_length (λ k h.
        let below : k < length file = omega (arith, h, same_length) in
        let begins : k / r.chunk_size * r.chunk_size < length file =
          omega (arith, div-mul-le_self k r.chunk_size, below) in
        deliver_place r indices k small len pos inside below (inr (all (k / r.chunk_size) begins)))
