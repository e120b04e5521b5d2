-- ===== src/P2p/Transfer/Receiver.antt =====
-- fyles_service/p2p/src/event_loop/filerequest/receive_manager.rs: `FilerequestReceiver`, the
-- receiver's answer to each message of a peer. What the brain, the drive handler, the clock and the
-- random generator answer is a parameter; the messages to the brain are returned with the response.
pub mod Steps
pub mod Isolation
pub mod Answers
pub mod Finish
mod Examples
use fyles_release.Base.{
  ℕ, ◌+◌, Bool, true, false, not, ◌&&◌, Option, none, some, List, [], ◌∷◌, ◌++◌, if◌then◌else◌,
  ◌==◌, Eq, nat_eq,
}
use fyles_release.P2p.Types.{
  FylesId, ContactId, PeerId, Bytes, DataChunk, FileRequest, FileResponse, new_transfer,
  continue_transfer, abort_transfer, chunk, done, protocol_violation, accept_new_transfer,
  reject_new_transfer, accept_continue_transfer, restart_continue_transfer, confirm_chunk,
  confirm_abort, confirm_done, acknowledge_protocol_violation, internal_error,
}
use fyles_release.P2p.Data.IdleExpiryMap.{IdleExpiryMap, get_mut, write_through, take}
use fyles_release.P2p.Data.IdleExpiryMap
use fyles_release.P2p.Data.IdleExpiryMap.Entry.{
  IdleEntry, occupied, vacant, entry, occupied_get, entry_insert, occupied_destruct,
}
use fyles_release.P2p.Transfer.ReceiveManager.{
  ReceiveManager, AppendApi, ReceiverRes, received, io_error, reset, store,
}
use fyles_release.P2p.Transfer.ReceiveManager
pub use fyles_release.P2p.Transfer.World.{
  PartName, ReceiveStatus, receiving, failed, ContinueResponse, CreateIncomingFile, BrainMessage,
  request_file_drop, create_incoming_file, request_continuation, update_received_file_status,
  store_received_file, World,
}

abbrev pub Receivers : Type 0 → Type 0 → Type 0
Receivers F D = IdleExpiryMap PeerId (ReceiveManager F D)

-- The response, the receiver's map after it, and the messages to the brain in order.
pub record Reply (F D : Type 0) : Type 0 where
  pub response : FileResponse
  pub receiving_files : Receivers F D
  pub messages : List BrainMessage

-- Thirty seconds, and thirty-five between cleanups, in milliseconds.
unfoldable pub new_receiver : {F D : Type 0} → ℕ → Receivers F D
new_receiver now = IdleExpiryMap.new 30000 35000 now

abbrev pub eq_option : Option ℕ → Option ℕ → Bool
eq_option none none = true
eq_option none (some y) = false
eq_option (some x) none = false
eq_option (some x) (some y) = x == y

module _ {F D : Type 0} (w : World F D) (node : PeerId) (contact : Option ContactId) where
  abbrev pub reply : FileResponse → Receivers F D → List BrainMessage → Reply F D
  reply r m sent = record { response = r; receiving_files = m; messages = sent }

  abbrev pub part_name : ℕ → FylesId → PartName
  part_name started transfer = record {
    started_at_ms = started;
    transfer = transfer;
    peer = node;
    contact = contact;
  }

  -- `FileRequest::NewTransfer`, after the entry was looked up.
  unfoldable pub respond_new :
      Receivers F D → IdleEntry PeerId → FylesId → ℕ → ℕ → FylesId → Reply F D
  respond_new m at filerequest file_name size transfer =
      let asked = request_file_drop filerequest contact in
      elim w.file_drop [
        | none ↦ reply reject_new_transfer m (asked ∷ [])
        | some drive ↦ elim w.unix_epoch_millis [
          | none ↦ reply internal_error m (asked ∷ [])
          | some started ↦ elim (w.partial_file drive (part_name started transfer)) [
            | none ↦ reply internal_error m (asked ∷ [])
            | some file ↦
                let create = create_incoming_file (record {
                  filerequest_id = filerequest;
                  transfer_id = transfer;
                  contact_id = contact;
                  peer_id = node;
                  file_name = file_name;
                  file_size_bytes = size;
                  started_at_ms = started;
                }) in
                let manager =
                  ReceiveManager.new drive file size file_name transfer filerequest contact
                    started in
                if w.created
                then reply accept_new_transfer (entry_insert m at manager w.used).1
                    (asked ∷ create ∷ [])
                else reply internal_error m (asked ∷ create ∷ [])
          ]
        ]
      ]

  abbrev pub same_transfer : ReceiveManager F D → FylesId → FylesId → Bool
  same_transfer r filerequest transfer =
      r.transfer_id == transfer && r.filerequest_id == filerequest && eq_option r.contact_id contact

  -- `FileRequest::ContinueTransfer` where the transfer is not in memory.
  unfoldable pub respond_continue_from_file :
      Receivers F D → IdleEntry PeerId → FylesId → FylesId → Reply F D
  respond_continue_from_file m at filerequest transfer =
      let asked = request_continuation filerequest contact node transfer in
      elim w.continuation [
        | none ↦ reply restart_continue_transfer m (asked ∷ [])
        | some c ↦ elim (w.partial_file c.drive_handler (part_name c.started_at_ms transfer)) [
          | none ↦
              reply restart_continue_transfer m
                (asked ∷ update_received_file_status transfer failed 0 ∷ [])
          | some file ↦ elim (w.append.metadata_len file) [
            | none ↦ reply internal_error m (asked ∷ [])
            | some continue_at ↦
                let manager =
                  record (ReceiveManager.new c.drive_handler file c.file_size_bytes c.file_name
                    transfer filerequest contact c.started_at_ms) { byte_progress = continue_at } in
                reply (accept_continue_transfer continue_at) (entry_insert m at manager w.ended).1
                  (asked ∷ [])
          ]
        ]
      ]

  -- `FileRequest::ContinueTransfer` with what the entry shows.
  unfoldable pub respond_continue_entry :
      Receivers F D → IdleEntry PeerId → Option (ReceiveManager F D) → FylesId → FylesId → Reply F D
  respond_continue_entry m at none filerequest transfer =
      respond_continue_from_file m at filerequest transfer
  respond_continue_entry m at (some r) filerequest transfer =
      if same_transfer r filerequest transfer
      then reply (accept_continue_transfer r.byte_progress) (write_through m node (reset r)) []
      else respond_continue_from_file m at filerequest transfer

  unfoldable pub respond_continue : Receivers F D → IdleEntry PeerId → FylesId → FylesId → Reply F D
  respond_continue m (vacant key) filerequest transfer =
      respond_continue_entry m (vacant key) none filerequest transfer
  respond_continue m (occupied key) filerequest transfer =
      let (seen, m') = occupied_get m key w.used in
      respond_continue_entry m' (occupied key) seen filerequest transfer

  -- The abort of the transfer of a manager that was taken out of the map.
  unfoldable pub respond_abort_of : Receivers F D → ReceiveManager F D → Option FylesId → Reply F D
  respond_abort_of m r requested =
      let verified : Option FylesId = elim requested [
        | some transfer ↦ if not (transfer == r.transfer_id) then none else some transfer
        | none ↦ some r.transfer_id
      ] in
      elim verified [
        | none ↦ reply FileResponse.protocol_violation m []
        | some transfer ↦
            if w.remove_partial r.drive_handler (part_name r.started_at_ms transfer)
            then reply confirm_abort m
                (update_received_file_status transfer failed r.byte_progress ∷ [])
            else reply internal_error m []
      ]

  -- `FileRequest::AbortTransfer`.
  unfoldable pub respond_abort : Receivers F D → Option FylesId → Reply F D
  respond_abort m requested =
      let (taken, m') = take m node w.used in
      elim taken [
        | none ↦ reply FileResponse.protocol_violation m' []
        | some r ↦ respond_abort_of m' r requested
      ]

  -- The answer to a chunk that `store` handled, with the manager after it. A `store` that did not end
  -- gives no answer at all; `Answers` shows that this does not happen.
  unfoldable pub respond_stored :
      Receivers F D → Option (ReceiverRes × ReceiveManager F D) → Option (Reply F D)
  respond_stored m none = none
  respond_stored m (some (received, r)) = some (
      reply confirm_chunk (write_through m node r)
        (update_received_file_status r.transfer_id receiving r.byte_progress ∷ []))
  respond_stored m (some (ReceiverRes.protocol_violation, r)) =
      some (reply FileResponse.protocol_violation (take (write_through m node r) node w.ended).1 [])
  respond_stored m (some (io_error, r)) = some (
      reply internal_error (take (write_through m node r) node w.ended).1
        (update_received_file_status r.transfer_id failed r.byte_progress ∷ []))

  -- `FileRequest::Chunk` with what `get_mut` shows.
  unfoldable pub respond_chunk_seen :
      Receivers F D → Option (ReceiveManager F D) → DataChunk → Option (Reply F D)
  respond_chunk_seen m none piece = some (reply FileResponse.protocol_violation m [])
  respond_chunk_seen m (some r) piece =
      let dropped = (take m node w.ended).1 in
      if not (piece.transfer_uuid == r.transfer_id)
      then some (reply FileResponse.protocol_violation dropped [])
      else (if not (eq_option contact r.contact_id)
          then some (reply w.random_response dropped [])
          else respond_stored m (store w.append r piece))

  unfoldable pub respond_chunk : Receivers F D → DataChunk → Option (Reply F D)
  respond_chunk m piece = let (seen, m') = get_mut m node w.used in respond_chunk_seen m' seen piece

  -- `FileRequest::Done` for a transfer that is complete.
  unfoldable pub respond_finalize : Receivers F D → ReceiveManager F D → FylesId → Reply F D
  respond_finalize m r transfer =
      elim (w.finalize_partial r.drive_handler (part_name r.started_at_ms transfer) r.file_name) [
        | none ↦ reply internal_error m []
        | some path ↦ elim w.unix_epoch_millis [
          | none ↦ reply internal_error m []
          | some ms ↦
              let sent = store_received_file r.transfer_id path ms ∷ [] in
              if w.stored then reply confirm_done m sent else reply internal_error m sent
        ]
      ]

  -- `FileRequest::Done` with what the entry shows.
  unfoldable pub respond_done_seen :
      Receivers F D → Option (ReceiveManager F D) → FylesId → Reply F D
  respond_done_seen m none transfer = reply internal_error m []
  respond_done_seen m (some r) transfer =
      if not (r.transfer_id == transfer)
      then reply FileResponse.protocol_violation (occupied_destruct m node) []
      else (if not (r.byte_progress == r.declared_file_size_bytes)
          then reply FileResponse.protocol_violation m []
          else respond_finalize m r transfer)

  unfoldable pub respond_done_entry : Receivers F D → IdleEntry PeerId → FylesId → Reply F D
  respond_done_entry m (vacant key) transfer = reply FileResponse.protocol_violation m []
  respond_done_entry m (occupied key) transfer =
      let (seen, m') = occupied_get m key w.ended in respond_done_seen m' seen transfer

  unfoldable pub respond_done : Receivers F D → FylesId → Reply F D
  respond_done m transfer = let (at, m') = entry m node w.used in respond_done_entry m' at transfer

  -- `respond_to`: the entry of the peer is looked up first, whatever the request.
  unfoldable pub respond_to : Receivers F D → FileRequest → Option (Reply F D)
  respond_to m (new_transfer filerequest file_name size transfer) =
      let (at, m') = entry m node w.entered in
      some (respond_new m' at filerequest file_name size transfer)
  respond_to m (continue_transfer filerequest transfer) =
      let (at, m') = entry m node w.entered in some (respond_continue m' at filerequest transfer)
  respond_to m (abort_transfer requested) =
      some (respond_abort (entry m node w.entered).1 requested)
  respond_to m (chunk piece) = respond_chunk (entry m node w.entered).1 piece
  respond_to m (done transfer) = some (respond_done (entry m node w.entered).1 transfer)
  respond_to m (FileRequest.protocol_violation transfer) =
      some (reply acknowledge_protocol_violation (take (entry m node w.entered).1 node w.used).1 [])
