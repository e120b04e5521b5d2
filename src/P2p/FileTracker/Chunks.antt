-- ===== src/P2p/FileTracker/Chunks.antt =====
-- fyles_service/p2p/src/event_loop/filerequest/file_tracker.rs: `send_chunks_loop`. The loop runs on
-- fuel, and `Loop` shows that the window of the sender is enough.
use fyles_release.Base.{on_some, ℕ, zero, suc, Option, none, some, [], ◌∷◌, ◌++◌, nat_eq}
use fyles_release.P2p.Types.{
  FylesId, ContactId, PeerId, Bytes, DataChunk, chunk, abort_transfer, parallel_chunks,
}
use fyles_release.P2p.Types
use fyles_release.P2p.FileReader.{ReadRes, bytes_read, read_error}
use fyles_release.P2p.FileReader
use fyles_release.P2p.Transfer.SendManager.{
  SendManager, SendRes, not_ready, sent, done, interrupt, send_next_chunk,
}
use fyles_release.P2p.Transfer.SendManager.Sending.{next_chunk}
use fyles_release.P2p.Transfer.SendData.{LockedSendData, unlock}
use fyles_release.Core.Domain.{
  TransferData, prepared, sending, interrupted, pending_sent, SendStatus, in_progress,
  transfer_data, pending, rejected, failed, unknown,
}
use fyles_release.Core.Domain
use fyles_release.P2p.FileTracker.{
  io_error, could_not_send, file_send_reset, interrupt_sending, notify, plugin, Outside, Scene,
  tell, PeerFiles, Run, Handled, returned, out_of_fuel, send_request, send_and_forget,
}
use fyles_release.P2p.FileTracker.Next.{complete_file}
use fyles_release.P2p.FileTracker.Reset.{reset_all_with_occupied}

-- `Sending` becomes `PendingSent`; any other status stays, which the code only logs.
abbrev pub finish_status : SendStatus → SendStatus
finish_status (in_progress sending t) = in_progress pending_sent t
finish_status (in_progress prepared t) = in_progress prepared t
finish_status (in_progress interrupted t) = in_progress interrupted t
finish_status (in_progress pending_sent t) = in_progress pending_sent t
finish_status pending = pending
finish_status Domain.sent = Domain.sent
finish_status rejected = rejected
finish_status failed = failed
finish_status (unknown text) = unknown text

abbrev pub with_status : {F : Type 0} → LockedSendData ℕ F → SendStatus → LockedSendData ℕ F
with_status d status = record d { pending_file = record d.pending_file { status = status } }

abbrev pub with_manager : {F : Type 0} → LockedSendData ℕ F → SendManager ℕ F → LockedSendData ℕ F
with_manager d m = record d { send_manager = m }

abbrev pub with_sending : {F : Type 0} → PeerFiles F → LockedSendData ℕ F → PeerFiles F
with_sending files d = record files { sending = some d }

module _ {W F : Type 0} (o : Outside W F) (peer : PeerId) where
  -- The closure that `send_next_chunk` takes, in the world of one call.
  abbrev pub chunk_sender : ContactId → Scene W → DataChunk → Option ℕ
  chunk_sender contact s piece = (o.send_idempotent s.world peer (some contact) (chunk piece)).0

  -- The bytes that the reader gives next.
  abbrev pub read_content : Option ReadRes → Bytes
  read_content none = []
  read_content (some (read_error e)) = []
  read_content (some (bytes_read content)) = content

  -- The world after the closure was called with the chunk.
  abbrev pub after_chunk : LockedSendData ℕ F → Scene W → Scene W
  after_chunk d s =
      let content = read_content (FileReader.read o.files d.send_manager.file).0 in
      record s {
        world =
            (o.send_idempotent s.world peer (some d.pending_file.contact_id)
              (chunk (next_chunk d.send_manager content))).1;
      }

  -- `SendRes::Done`.
  unfoldable pub finish_sending : PeerFiles F → LockedSendData ℕ F → Scene W → Run W F
  finish_sending files d s =
      let (res, s') =
        send_request o peer (some d.pending_file.contact_id)
          (Types.FileRequest.done d.send_manager.transfer_id) s in
      on_some res
        (on_some (transfer_data d.pending_file.status)
          (record { files = some (with_sending files d); scene = s' })
          (λ t. (reset_all_with_occupied (with_sending files d) s').1))
        (λ request. record {
          files = some (with_sending files (with_status d (finish_status d.pending_file.status)));
          scene = s';
        })

  -- `SendRes::IoError`.
  unfoldable pub give_up_sending : PeerFiles F → LockedSendData ℕ F → ℕ → Scene W → Run W F
  give_up_sending files d e s =
      let s' =
        send_and_forget o peer (some d.pending_file.contact_id)
          (abort_transfer (some d.send_manager.transfer_id)) s in
      complete_file o peer (record files { sending = none }) d.pending_file.id (io_error e) s'

  -- `SendRes::Interrupt`.
  unfoldable pub interrupt_loop : PeerFiles F → LockedSendData ℕ F → Scene W → Run W F
  interrupt_loop files d s =
      on_some (transfer_data d.pending_file.status)
        (record { files = some (with_sending files d); scene = s })
        (λ t.
          let p = record d.pending_file { status = in_progress interrupted t } in
          record {
            files = some (record { pending = files.pending ++ (p ∷ []); sending = none });
            scene =
                tell (plugin interrupt_sending)
                  (tell (notify (file_send_reset p.id p.status none (some could_not_send))) s);
          })

  -- What the loop does with the result of `send_next_chunk`; `next` is the next round.
  unfoldable pub follow_chunk :
      (Option (PeerFiles F) → Scene W → Handled (Run W F))
      → PeerFiles F
      → LockedSendData ℕ F
      → SendManager ℕ F
      → SendRes ℕ
      → Scene W
      → Handled (Run W F)
  follow_chunk next files d m not_ready s =
      returned (record { files = some (with_sending files (with_manager d m)); scene = s })
  follow_chunk next files d m (sent id) s =
      next (some (with_sending files (with_manager d m))) (after_chunk d s)
  follow_chunk next files d m done s = returned (finish_sending files (with_manager d m) s)
  follow_chunk next files d m (SendRes.io_error e) s =
      returned (give_up_sending files (with_manager d m) e s)
  follow_chunk next files d m interrupt s =
      returned (interrupt_loop files (with_manager d m) (after_chunk d s))

  -- One round of the loop.
  unfoldable pub send_chunk_round :
      (Option (PeerFiles F) → Scene W → Handled (Run W F))
      → Option ContactId
      → Option (PeerFiles F)
      → Scene W
      → Handled (Run W F)
  send_chunk_round next contact none s = returned (record { files = none; scene = s })
  send_chunk_round next contact (some files) s =
      on_some files.sending (returned (record { files = some files; scene = s })) (λ d.
        on_some (unlock d contact) (returned (record { files = some files; scene = s }))
          (λ unlocked.
            let (res, m) =
              send_next_chunk o.files (chunk_sender d.pending_file.contact_id s) d.send_manager in
            follow_chunk next files d m res s))

  unfoldable pub send_chunks_loop :
      ℕ → Option ContactId → Option (PeerFiles F) → Scene W → Handled (Run W F)
  send_chunks_loop zero contact entry s = out_of_fuel
  send_chunks_loop (suc fuel) contact entry s =
      send_chunk_round (send_chunks_loop fuel contact) contact entry s

-- One call more than the window has slots.
abbrev pub loop_fuel : ℕ
loop_fuel = suc parallel_chunks
