-- ===== src/P2p/FileTracker/Reset.antt =====
-- fyles_service/p2p/src/event_loop/filerequest/file_tracker.rs: the ways in which a file goes from the
-- sending slot back to the queue, with the limit of its retries.
use fyles_release.Base.{
  on_some, ℕ, ◌+◌, ◌/◌, ◌%◌, true, Option, none, some, [], ◌∷◌, ◌++◌, if◌then◌else◌, ltb,
}
use fyles_release.P2p.Types.{ContactId, PeerId, abort_transfer, u64_mod}
use fyles_release.P2p.Types
use fyles_release.P2p.Transfer.SendData.{LockedSendData, get_file_size_bytes, get_transfer_id}
use fyles_release.Core.Domain.{
  prepared, sending, interrupted, pending_sent, SendStatus, pending, in_progress, sent, rejected,
  failed, unknown,
}
use fyles_release.P2p.FileTracker.{
  ResetReason, disconnected, file_send_reset, pending_file_added, interrupt_sending, notify, plugin,
  Outside, Scene, tell, PeerFiles, Run, send_and_forget,
}
use fyles_release.P2p.FileTracker
use fyles_release.P2p.FileTracker.Next.{complete_file}

unfoldable pub compute_reset_status : SendStatus → SendStatus
compute_reset_status (in_progress prepared t) =
    if ltb 0 t.progress_bytes then in_progress interrupted t else pending
compute_reset_status (in_progress sending t) = in_progress interrupted t
compute_reset_status (in_progress interrupted t) = in_progress interrupted t
compute_reset_status (in_progress pending_sent t) = in_progress interrupted t
compute_reset_status pending = pending
compute_reset_status sent = pending
compute_reset_status rejected = pending
compute_reset_status failed = pending
compute_reset_status (unknown text) = pending

abbrev pub raise_retry_count : {F : Type 0} → LockedSendData ℕ F → LockedSendData ℕ F
raise_retry_count d = record d {
  pending_file = record d.pending_file { retry_count = (d.pending_file.retry_count + 1) % u64_mod };
}

-- `sending.pending_file.retry_count += 1` for the file in the slot.
abbrev pub raise_sending : {F : Type 0} → Option (PeerFiles F) → Option (PeerFiles F)
raise_sending none = none
raise_sending (some files) =
    on_some files.sending (some files)
      (λ d. some (record files { sending = some (raise_retry_count d) }))

abbrev pub sending_of : {F : Type 0} → Option (PeerFiles F) → Option (LockedSendData ℕ F)
sending_of none = none
sending_of (some files) = files.sending

-- `max_allowed_failures` for a file of this size.
abbrev pub max_allowed_failures : ℕ → ℕ
max_allowed_failures size = 1 + size / 1000000000

module _ {W F : Type 0} where
  unfoldable pub reset_and_stop : PeerFiles F → LockedSendData ℕ F → ResetReason → Scene W → Run W F
  reset_and_stop files d reason s =
      let status = compute_reset_status d.pending_file.status in
      let p = record d.pending_file { status = status } in
      record {
        files = some (record files { pending = files.pending ++ (p ∷ []) });
        scene = tell (plugin (pending_file_added true)) (
            tell (plugin interrupt_sending)
              (tell (notify (file_send_reset p.id status (some p.retry_count) (some reason))) s));
      }

  unfoldable pub reset_all_with_occupied : PeerFiles F → Scene W → Option ContactId × Run W F
  reset_all_with_occupied files s =
      on_some files.sending ((none, record { files = some files; scene = s })) (λ d. (
        some d.pending_file.contact_id,
        reset_and_stop (record files { sending = none }) d disconnected s,
      ))

  unfoldable pub reset_all : Option (PeerFiles F) → Scene W → Option ContactId × Run W F
  reset_all none s = (none, record { files = none; scene = s })
  reset_all (some files) s = reset_all_with_occupied files s

module _ {W F : Type 0} (o : Outside W F) (peer : PeerId) where
  unfoldable pub reset_and_retry :
      PeerFiles F → LockedSendData ℕ F → ResetReason → Scene W → Run W F
  reset_and_retry files d reason s =
      if ltb (max_allowed_failures (get_file_size_bytes d)) d.pending_file.retry_count
      then complete_file o peer files d.pending_file.id FileTracker.failed s
      else reset_and_stop files d reason s

  unfoldable pub reset_all_on_internal_error_for : Option (PeerFiles F) → Scene W → Run W F
  reset_all_on_internal_error_for entry s =
      let run = (reset_all (raise_sending entry) s).1 in
      on_some (sending_of entry)
        (record run { scene = send_and_forget o peer none (abort_transfer none) run.scene })
        (λ d. record run {
          scene =
              send_and_forget o peer (some d.pending_file.contact_id)
                (abort_transfer (some (get_transfer_id d))) run.scene;
        })

  unfoldable pub reset_all_on_protocol_violation_for : Option (PeerFiles F) → Scene W → Run W F
  reset_all_on_protocol_violation_for entry s =
      let (contact, run) = reset_all (raise_sending entry) s in
      record run {
        scene =
            send_and_forget o peer contact (Types.FileRequest.protocol_violation none) run.scene;
      }
