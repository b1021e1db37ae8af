-- ===== src/Transfer/Merkle.antt =====
-- crates/ceky-transfer/src/merkle.rs: the hashes of a file. SHA-256 is a parameter, a file its bytes; an
-- error of a read is not modelled.
use ceky_p2p.Common.{ℕ, zero, suc, List, [], ◌∷◌, ◌++◌, take, drop, length}
use ceky_p2p.Protocol.Transfer.{file_hash_len}

module _ (sha256 : List ℕ → List ℕ) where
  unfoldable pub hash_chunk : List ℕ → List ℕ
  hash_chunk bytes = take file_hash_len (sha256 bytes)

  -- What the loop feeds the root hasher: it fills the buffer and stops at the end of the file. The
  -- fuel is the length of the file.
  unfoldable pub chunk_hashes : ℕ → ℕ → List ℕ → List ℕ
  unfolding hash_chunk
  chunk_hashes zero chunk_size file = []
  chunk_hashes (suc fuel) chunk_size file = elim (take chunk_size file) [
    | [] ↦ []
    | b ∷ bytes ↦ hash_chunk (b ∷ bytes) ++ chunk_hashes fuel chunk_size (drop chunk_size file)
  ]

  unfoldable pub calculate_file_hash : List ℕ → ℕ → List ℕ
  unfolding chunk_hashes
  calculate_file_hash file chunk_size =
      take file_hash_len (sha256 (chunk_hashes (length file) chunk_size file))
