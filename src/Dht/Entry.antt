-- ===== src/Dht/Entry.antt =====
-- `StoredEntry` of crates/ceky-dht/src/storage.rs, and the bytes that it is stored as. The time is a
-- number of seconds since the epoch.
pub mod Coding
use ceky_p2p.Common.{ℕ, ◌+◌, ◌%◌, ◌^◌, Bool, leb, List, ◌++◌, length}
use ceky_p2p.Common.Bytes.{be_bytes}
use ceky_p2p.Common.Outcome.{Outcome, ok, guard, read_be, slice, ◌>>=◌, ◌>>◌}
use ceky_p2p.Crypto.PeerId.{PeerId}
use ceky_p2p.Dht.Routing.{DhtError, invalid_key}

pub record StoredEntry : Type 0 where
  pub key : List ℕ
  pub value : List ℕ
  pub publisher : PeerId
  pub expires_at : ℕ

unfoldable pub new_entry : ℕ → List ℕ → List ℕ → PeerId → ℕ → StoredEntry
new_entry now key value publisher ttl_secs = record {
  key = key;
  value = value;
  publisher = publisher;
  expires_at = (now + ttl_secs) % 2 ^ 64;
}

unfoldable pub is_expired : ℕ → StoredEntry → Bool
is_expired now e = leb e.expires_at now

-- Key(32) | Publisher(32) | ExpiresAt(8) | ValueLen(4) | Value(N)
unfoldable pub encode : StoredEntry → List ℕ
encode e =
    e.key
    ++ (e.publisher
        ++ (be_bytes 8 e.expires_at ++ (be_bytes 4 (length e.value % 2 ^ 32) ++ e.value)))

unfoldable pub decode : List ℕ → Outcome DhtError StoredEntry
decode payload = do
  guard (leb 76 (length payload)) invalid_key
  key ← slice 0 32 payload
  publisher ← slice 32 64 payload
  expires_at ← read_be 8 payload 64
  val_len ← read_be 4 payload 72
  guard (leb (76 + val_len) (length payload)) invalid_key
  value ← slice 76 (76 + val_len) payload
  ok (record { key = key; value = value; publisher = publisher; expires_at = expires_at })
