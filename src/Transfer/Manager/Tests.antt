-- ===== src/Transfer/Manager/Tests.antt =====
-- A small transfer of crates/ceky-transfer, of a file of three chunks.
use ceky_p2p.Common.{
  sym, ℕ, ◌≡◌, refl, arith, none, some, List, [], ◌∷◌, ◌++◌, map, take, replicate, zero, suc, ◌*◌,
  ◌<◌, any, ◌==◌, true,
}
use ceky_p2p.Common.Outcome.{ok, err}
use ceky_p2p.Crypto.PeerId.{id_eq}
use ceky_p2p.Protocol.Transfer.Bitmap.{bitmap_is_missing}
use ceky_p2p.Protocol.Transfer.{TransferId, FileOffer, new_offer, compute_total_chunks}
use ceky_p2p.Protocol.Transfer.Chunks.{FileChunk, FileChunkAck, bad_hash}
use ceky_p2p.Transfer.Merkle.{calculate_file_hash, hash_chunk, chunk_hashes}
use ceky_p2p.Transfer.Manager.{
  handle_offer, TransferManager, SendingState, ReceivingState, sending, receiving, deadlock,
  new_transfers, lock_transfer, insert_transfer, pump_send, handle_chunk_ack, handle_chunk,
  chunk_stored, pump_loop, pump_step, chunk_frame,
}
use ceky_p2p.Transfer.Manager.Pump.{chunk_message, missing_from, HasPumped, pump_send_lem}
use ceky_p2p.Transfer.Manager.Acks.{handle_chunk_ack-deadlock}
use ceky_p2p.Transfer.Manager.Written.{chunk_at}
use ceky_p2p.Transfer.Manager.Whole.{arrive, offer-whole}
use ceky_p2p.Transfer.Manager.Counted.{Lands, IsPlaced, handle_chunk_lem, handle_chunk_twice}

-- A hash for the tests: the message itself, filled up.
abbrev digest : List ℕ → List ℕ
digest m = take 32 (m ++ replicate 32 0)

abbrev transfer : TransferId
transfer = replicate 16 7

-- The last chunk is a short one, and the first one has arrived.
abbrev outgoing : SendingState
outgoing = record {
  peer = 9;
  file_map = 1 ∷ 2 ∷ 3 ∷ 4 ∷ 5 ∷ [];
  bitfield = 254 ∷ [];
  credits = 1;
  chunk_size = 2;
  total_chunks = 3;
  current_chunk_idx = 0;
}

abbrev sender : TransferManager
sender = insert_transfer new_transfers transfer (sending outgoing)

one_sent :
    pump_loop digest transfer 3 outgoing
    ≡ ok (
      record outgoing { credits = 0; current_chunk_idx = 2 },
      chunk_message digest transfer outgoing 1 ∷ [],
    )
unfolding pump_loop pump_step chunk_frame bitmap_is_missing
one_sent = refl

three_hashes :
    chunk_hashes digest 5 2 outgoing.file_map
    ≡ digest (1 ∷ 2 ∷ []) ++ (digest (3 ∷ 4 ∷ []) ++ digest (5 ∷ []))
unfolding chunk_hashes hash_chunk
three_hashes = refl

pump_send_lem_example :
    (t : SendingState) × (n : TransferManager) × (pump_send digest sender transfer ≡ ok n)
    × (n.sent
        ≡ sender.sent
          ++ map (chunk_message digest transfer outgoing) (take 1 (missing_from (254 ∷ []) 0 3)))
    × (n.active_transfers transfer ≡ some (sending t))
    × HasPumped outgoing t (take 1 (missing_from (254 ∷ []) 0 3))
unfolding lock_transfer insert_transfer id_eq
pump_send_lem_example =
    pump_send_lem digest sender transfer outgoing refl (omega arith, omega arith)

abbrev ack : FileChunkAck
ack = record { transfer_id = transfer; chunk_index = 0; status = bad_hash }

handle_chunk_ack-deadlock_example : handle_chunk_ack digest sender ack ≡ err deadlock
unfolding lock_transfer insert_transfer id_eq
handle_chunk_ack-deadlock_example = handle_chunk_ack-deadlock digest sender ack outgoing refl

-- Two chunks are still to come.
abbrev incoming : ReceivingState
incoming = record {
  peer = 8;
  file_map = 1 ∷ 2 ∷ 0 ∷ 0 ∷ 0 ∷ [];
  expected_root = replicate 32 0;
  bitfield = 254 ∷ [];
  chunk_size = 2;
  total_chunks = 3;
  received_chunks = 1;
  file_path = 102 ∷ [];
}

abbrev receiver : TransferManager
receiver = insert_transfer new_transfers transfer (receiving incoming)

abbrev second : FileChunk
second = record {
  transfer_id = transfer;
  chunk_index = 1;
  chunk_hash = digest (3 ∷ 4 ∷ []);
  data_bytes = 3 ∷ 4 ∷ [];
}

handle_chunk_lem_example :
    (n : TransferManager) × (handle_chunk digest receiver second ≡ ok (n, none))
    × Lands digest n transfer (chunk_stored digest incoming second)
    × IsPlaced digest
        (chunk_stored digest incoming second).file_map
        incoming.file_map
        2
        (3 ∷ 4 ∷ [])
unfolding lock_transfer insert_transfer hash_chunk id_eq
handle_chunk_lem_example =
    handle_chunk_lem digest receiver incoming second refl (refl, omega arith, omega arith)

handle_chunk_twice_example :
    (n : TransferManager) × (p : TransferManager) × (handle_chunk digest receiver second
      ≡ ok (n, none))
    × (handle_chunk digest n second ≡ ok (p, none))
    × (p.active_transfers transfer ≡ none)
    × (p.disk (102 ∷ []) ≡ some (chunk_stored digest incoming second).file_map)
unfolding lock_transfer insert_transfer hash_chunk id_eq
handle_chunk_twice_example =
    handle_chunk_twice digest receiver incoming second refl (refl, omega arith, omega arith) refl
      (omega arith)

-- The third chunk first.
abbrev arrivals : List ℕ
arrivals = 2 ∷ 0 ∷ 1 ∷ []

all_arrive : (i : ℕ) → i * 2 < 5 → any (λ j. j == i) arrivals ≡ true
all_arrive zero h = refl
all_arrive (suc zero) h = refl
all_arrive (suc (suc zero)) h = refl
all_arrive (suc (suc (suc i))) h = absurd (omega arith)

abbrev contents : List ℕ
contents = outgoing.file_map

abbrev offer : FileOffer
offer = record {
  transfer_id = transfer;
  file_name = 102 ∷ [];
  file_size = 5;
  chunk_size = 2;
  total_chunks = 3;
  file_hash = calculate_file_hash digest contents 2;
}

offer-made : new_offer transfer (102 ∷ []) 5 2 (calculate_file_hash digest contents 2) ≡ ok offer
unfolding new_offer compute_total_chunks
offer-made = refl

three_chunks : compute_total_chunks 5 2 ≡ 3
unfolding compute_total_chunks
three_chunks = refl

-- An older and longer download is there.
offer-whole_example :
    let received = handle_offer new_transfers 8 offer (102 ∷ []) (some (replicate 9 6)) true true in
    (n : TransferManager) × (received.1 ≡ none)
    × (arrive digest received.0 (map (chunk_at digest transfer contents 2) arrivals) ≡ ok (n, none))
    × (n.active_transfers transfer ≡ none)
    × (n.disk (102 ∷ []) ≡ some contents)
offer-whole_example =
    offer-whole digest transfer contents new_transfers 8 (102 ∷ [])
      (calculate_file_hash digest contents 2) 2 offer (102 ∷ []) (replicate 9 6) arrivals
      (omega arith) (omega arith) offer-made refl (sym three_chunks)
      (omega arith, (omega arith, (omega arith, tt))) all_arrive
