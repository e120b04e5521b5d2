-- ===== src/P2p/FileTracker/Next.antt =====
-- fyles_service/p2p/src/event_loop/filerequest/file_tracker.rs: `send_next`, which offers the next
-- pending file to the peer, and `complete_file`.
use fyles_release.Base.{on_some, ℕ, Option, none, some, List, [], ◌∷◌}
use fyles_release.P2p.Types.{FylesId, PeerId, new_transfer, continue_transfer}
use fyles_release.P2p.Transfer.SendData.{LockedSendData}
use fyles_release.P2p.Transfer.SendData
use fyles_release.Core.Domain.{
  TransferData, InProgressSendStatus, prepared, sending, interrupted, pending_sent, SendStatus,
  pending, in_progress, unknown, PendingFile,
}
use fyles_release.Core.Domain
use fyles_release.P2p.FileTracker.{
  FileOutcome, sent, failed, missing, rejected, io_error, NetworkNodeAction, file_sent, file_failed,
  file_missing, file_rejected, file_io_error, file_sending, on_send_file, done_sending, notify,
  plugin, OpenFile, Outside, Scene, tell, PeerFiles, Run, send_request,
}

-- `complete_file` tells the brain the outcome.
abbrev pub outcome_action : FileOutcome → FylesId → NetworkNodeAction
outcome_action sent id = file_sent id
outcome_action failed id = file_failed id
outcome_action missing id = file_missing id
outcome_action rejected id = file_rejected id
outcome_action (io_error e) id = file_io_error id e

-- The offset to open the file at; `none` for a status that makes no sense.
abbrev pub progress_of : SendStatus → Option ℕ
progress_of pending = some 0
progress_of (in_progress status t) = some t.progress_bytes
progress_of Domain.sent = none
progress_of Domain.rejected = none
progress_of Domain.failed = none
progress_of (unknown text) = none

-- What became of the file that was taken from the queue: it is given up and the next one follows, it
-- is put back in front, it was offered, or it was to be continued.
pub data Attempt (W F : Type 0) : Type 0 where
  given_up : NetworkNodeAction → Scene W → Attempt W F
  put_back : Scene W → Attempt W F
  offered : LockedSendData ℕ F → Scene W → Attempt W F
  continued : Option (LockedSendData ℕ F) → Scene W → Attempt W F

module _ {W F : Type 0} (o : Outside W F) (peer : PeerId) where
  unfoldable pub offer_new : PendingFile → OpenFile F → ℕ → Scene W → Attempt W F
  offer_new p f size s =
      let (transfer, w) = o.new_id s.world in
      let (res, s') =
        send_request o peer (some p.contact_id)
          (new_transfer p.target_filerequest_id f.file_name size transfer)
          (record s { world = w }) in
      let t : TransferData = record {
        progress_bytes = 0;
        file_size_bytes = size;
        transfer_id = transfer;
      } in
      on_some res (put_back s') (λ request.
        offered
          (SendData.new o.files (record p { status = in_progress prepared t }) transfer size f.file)
          s')

  unfoldable pub offer_continue :
      PendingFile → TransferData → OpenFile F → ℕ → Scene W → Attempt W F
  offer_continue p t f size s =
      let (res, s') =
        send_request o peer (some p.contact_id)
          (continue_transfer p.target_filerequest_id t.transfer_id) s in
      on_some res (continued none s') (λ request.
        continued
          (some (
            SendData.new o.files (record p { status = in_progress prepared t }) t.transfer_id size
              f.file))
          s')

  -- The `match` on the status of the file that is open.
  unfoldable pub offer : SendStatus → PendingFile → OpenFile F → ℕ → Scene W → Attempt W F
  offer pending p f size s = offer_new p f size s
  offer (in_progress interrupted t) p f size s = offer_continue p t f size s
  offer (in_progress prepared t) p f size s = given_up (file_failed p.id) s
  offer (in_progress sending t) p f size s = given_up (file_failed p.id) s
  offer (in_progress pending_sent t) p f size s = given_up (file_failed p.id) s
  offer Domain.sent p f size s = given_up (file_failed p.id) s
  offer Domain.rejected p f size s = given_up (file_failed p.id) s
  offer Domain.failed p f size s = given_up (file_failed p.id) s
  offer (unknown text) p f size s = given_up (file_failed p.id) s

  -- The file is open; its size is an error if its metadata cannot be read.
  unfoldable pub try_sized : PendingFile → OpenFile F → Option ℕ → Scene W → Attempt W F
  try_sized p f none s = given_up (file_missing p.id) s
  try_sized p f (some size) s = offer p.status p f size s

  unfoldable pub try_opened : PendingFile → Option (OpenFile F) → Scene W → Attempt W F
  try_opened p none s = given_up (file_missing p.id) s
  try_opened p (some f) s = try_sized p f (o.metadata_len f.file) s

  unfoldable pub try_at : PendingFile → Option ℕ → Scene W → Attempt W F
  try_at p none s = given_up (outcome_action failed p.id) s
  try_at p (some progress) s =
      let (opened, w) = o.open_file s.world p.file_path p.id progress in
      try_opened p opened (record s { world = w })

  -- The body of `send_next` for the file that was popped.
  unfoldable pub try_next : PendingFile → Scene W → Attempt W F
  try_next p s = try_at p (progress_of p.status) s

  -- `peer_files.sending = Some(…)` if the continuation was sent.
  abbrev pub fill :
      Option (LockedSendData ℕ F) → Option (LockedSendData ℕ F) → Option (LockedSendData ℕ F)
  fill none slot = slot
  fill (some d) slot = some d

  -- What `send_next` does after the attempt; `next` is the call for the rest of the queue.
  unfoldable pub follow :
      PendingFile
      → List PendingFile
      → Option (LockedSendData ℕ F)
      → (Scene W → Run W F)
      → Attempt W F
      → Run W F
  follow p ps slot next (given_up action s) = next (tell (notify action) s)
  follow p ps slot next (put_back s) = record {
    files = some (record { pending = p ∷ ps; sending = slot });
    scene = s;
  }
  follow p ps slot next (offered d s) = record {
    files = some (record { pending = ps; sending = some d });
    scene = tell (plugin on_send_file) s;
  }
  follow p ps slot next (continued d s) = record {
    files = some (record { pending = ps; sending = fill d slot });
    scene = tell (plugin on_send_file) (tell (notify (file_sending p.id p.status)) s);
  }

  -- `send_next`, with the queue and the sending slot of the entry.
  unfoldable pub send_next : List PendingFile → Option (LockedSendData ℕ F) → Scene W → Run W F
  send_next [] slot s = record { files = none; scene = tell (plugin done_sending) s }
  send_next (p ∷ ps) slot s = follow p ps slot (send_next ps slot) (try_next p s)

  unfoldable pub complete_file : PeerFiles F → FylesId → FileOutcome → Scene W → Run W F
  complete_file files id outcome s =
      send_next files.pending files.sending (tell (notify (outcome_action outcome id)) s)
