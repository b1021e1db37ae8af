-- ===== src/Transfer/Manager/Acks.antt =====
-- The acknowledgements of crates/ceky-transfer/src/manager.rs.
use ceky_p2p.Common.{ℕ, ◌≡◌, refl, none, some, List, ◌∷◌}
use ceky_p2p.Common.Outcome.{Outcome, ok, err, ◌>>=◌}
use ceky_p2p.Dht.KBucket.Peers.{id_eq_self}
use ceky_p2p.Protocol.Transfer.{TransferId}
use ceky_p2p.Protocol.Transfer.Chunks.{FileChunkAck}
use ceky_p2p.Transfer.Manager.{
  TransferManager, SendingState, sending, Stuck, deadlock, lock_transfer, pump_send,
  insert_transfer, pumped, rewound, acked, handle_chunk_ack,
}

-- Whoever holds the guard of a transfer waits for ever when asking for it again.
lock_transfer_guarded :
    (m : TransferManager) (id : TransferId) (others : List TransferId)
    → m.guarded ≡ id ∷ others
    → lock_transfer m id ≡ err deadlock
unfolding lock_transfer
lock_transfer_guarded m id others e = rw (e, id_eq_self id) refl

stuck_then :
    {A B : Type 0} {o : Outcome Stuck A} (f : A → Outcome Stuck B)
    → o ≡ err deadlock
    → ◌≡◌ {A = Outcome Stuck B} (o >>= f) (err deadlock)
stuck_then {A} {B} {o} f e = rw e refl

module _ (sha256 : List ℕ → List ℕ) where
  pump_send_guarded :
      (m : TransferManager) (id : TransferId) (others : List TransferId)
      → m.guarded ≡ id ∷ others
      → pump_send sha256 m id ≡ err deadlock
  unfolding pump_send
  pump_send_guarded m id others e =
      stuck_then (pumped sha256 m id) (lock_transfer_guarded m id others e)

  acked-deadlock :
      (m : TransferManager) (ack : FileChunkAck) (s : SendingState)
      → acked sha256 m ack (some (sending s)) ≡ err deadlock
  unfolding acked insert_transfer
  acked-deadlock m ack s =
      let id = ack.transfer_id in
      stuck_then (λ n. ok (record n { guarded = m.guarded }, none))
        (pump_send_guarded
          (record (insert_transfer m id (sending (rewound s ack))) { guarded = id ∷ m.guarded }) id
          m.guarded refl)

  -- Handling an acknowledgement of a transfer that is being sent, whatever its status, never returns:
  -- the pump waits for the guard that the handler holds.
  pub handle_chunk_ack-deadlock :
      (m : TransferManager) (ack : FileChunkAck) (s : SendingState)
      → lock_transfer m ack.transfer_id ≡ ok (some (sending s))
      → handle_chunk_ack sha256 m ack ≡ err deadlock
  unfolding handle_chunk_ack
  handle_chunk_ack-deadlock m ack s found = rw found (acked-deadlock m ack s)
