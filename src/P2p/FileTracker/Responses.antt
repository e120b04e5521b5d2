-- ===== src/P2p/FileTracker/Responses.antt =====
-- fyles_service/p2p/src/event_loop/filerequest/file_tracker.rs: `receive_response` and
-- `handle_receive_error`, with the entry of the peer.
use fyles_release.Base.{on_some, ℕ, false, Option, none, some, nat_eq}
use fyles_release.P2p.Types.{
  ContactId, PeerId, FileResponse, accept_new_transfer, reject_new_transfer,
  accept_continue_transfer, restart_continue_transfer, reject_continue_transfer, confirm_chunk,
  reject_chunk, confirm_abort, confirm_done, reject_done, acknowledge_protocol_violation,
  protocol_violation, internal_error, u64_mod,
}
use fyles_release.P2p.Types
use fyles_release.P2p.Transfer.SendManager.{mark_done, set_progress}
use fyles_release.P2p.Transfer.SendData.{LockedSendData, unlock}
use fyles_release.Core.Domain.{
  TransferData, InProgressSendStatus, prepared, sending, interrupted, pending_sent, SendStatus,
  in_progress,
}
use fyles_release.P2p.FileTracker.{
  sent, rejected, remote_violation, remote_internal_error, file_sending, notify, Outside, Scene,
  tell, PeerFiles, Run, Handled, returned, deadlocked, panicked, out_of_fuel, send_and_forget,
}
use fyles_release.P2p.FileTracker.Next.{send_next, complete_file}
use fyles_release.P2p.FileTracker.Reset.{
  raise_retry_count, reset_and_stop, reset_all, reset_and_retry, reset_all_on_internal_error_for,
  reset_all_on_protocol_violation_for,
}
use fyles_release.P2p.FileTracker.Chunks.{with_status, with_sending, send_chunks_loop, loop_fuel}
use fyles_release.P2p.FileTracker.Verify.{
  ContactVerificationResult, verified, contact_is_unknown, verification_failed,
  verify_target_contact_id,
}
use fyles_release.P2p.FileTracker.Verify

-- The data of a file in the given status of its progress.
abbrev pub in_status : InProgressSendStatus → SendStatus → Option TransferData
in_status prepared (in_progress prepared t) = some t
in_status sending (in_progress sending t) = some t
in_status interrupted (in_progress interrupted t) = some t
in_status pending_sent (in_progress pending_sent t) = some t
in_status wanted status = none

abbrev pub unverified : {F : Type 0} → LockedSendData ℕ F → LockedSendData ℕ F
unverified d = record d { must_verify_contact_id = false }

abbrev pub without_sending : {F : Type 0} → PeerFiles F → PeerFiles F
without_sending files = record files { sending = none }

abbrev pub unchanged : {W F : Type 0} → Option (PeerFiles F) → Scene W → Handled (Run W F)
unchanged entry s = returned (record { files = entry; scene = s })

module _ {W F : Type 0} (o : Outside W F) (peer : PeerId) where
  -- The answer to a peer that has no entry.
  unfoldable pub report_violation : Scene W → Handled (Run W F)
  report_violation s =
      unchanged none (send_and_forget o peer none (Types.FileRequest.protocol_violation none) s)

  abbrev pub violation : PeerFiles F → Scene W → Handled (Run W F)
  violation files s = returned (reset_all_on_protocol_violation_for o peer (some files) s)

  -- The `match` on a verification of the contact; the slot holds `d`.
  unfoldable pub after_verification :
      PeerFiles F
      → LockedSendData ℕ F
      → (LockedSendData ℕ F → Scene W → Handled (Run W F))
      → Handled (ContactVerificationResult × Scene W)
      → Handled (Run W F)
  after_verification files d continue (returned (contact_is_unknown, s)) = continue (unverified d) s
  after_verification files d continue (returned (verified, s)) = continue d s
  after_verification files d continue (returned (verification_failed, s)) =
      returned (reset_all (some (with_sending files d)) s).1
  after_verification files d continue (returned (Verify.internal_error, s)) =
      returned (reset_all_on_internal_error_for o peer (some (with_sending files d)) s)
  after_verification files d continue deadlocked = deadlocked
  after_verification files d continue panicked = panicked
  after_verification files d continue out_of_fuel = out_of_fuel

  abbrev pub when_verified :
      PeerFiles F
      → LockedSendData ℕ F
      → Option ContactId
      → (LockedSendData ℕ F → Scene W → Handled (Run W F))
      → Scene W
      → Handled (Run W F)
  when_verified files d contact continue s =
      after_verification files d continue
        (verify_target_contact_id o d.pending_file.contact_id contact s)

  -- `AcceptNewTransfer` and `RestartContinueTransfer`.
  unfoldable pub start_sending :
      PeerFiles F → Option ContactId → LockedSendData ℕ F → Scene W → Handled (Run W F)
  start_sending files contact d s =
      on_some (in_status prepared d.pending_file.status) (violation (with_sending files d) s) (λ t.
        send_chunks_loop o peer loop_fuel contact
          (some (with_sending files (with_status d (in_progress sending t)))) s)

  unfoldable pub receive_accept_new :
      Option ContactId → Option (PeerFiles F) → Scene W → Handled (Run W F)
  receive_accept_new contact none s = report_violation s
  receive_accept_new contact (some files) s =
      on_some files.sending (violation files s)
        (λ d. when_verified files d contact (start_sending files contact) s)

  -- The end of `RejectNewTransfer` and of `RejectContinueTransfer`.
  unfoldable pub finish_rejected : PeerFiles F → LockedSendData ℕ F → Scene W → Handled (Run W F)
  finish_rejected files d s =
      returned (complete_file o peer (without_sending files) d.pending_file.id rejected s)

  unfoldable pub receive_reject_new :
      Option ContactId → Option (PeerFiles F) → Scene W → Handled (Run W F)
  receive_reject_new contact none s = report_violation s
  receive_reject_new contact (some files) s =
      on_some files.sending (violation files s)
        (λ d. when_verified files d contact (finish_rejected files) s)

  -- `AcceptContinueTransfer`; the lock that does not open is the panic of an `expect`.
  unfoldable pub continue_sending :
      PeerFiles F → Option ContactId → ℕ → LockedSendData ℕ F → Scene W → Handled (Run W F)
  continue_sending files contact offset d s =
      on_some (in_status prepared d.pending_file.status) (violation (with_sending files d) s) (λ t.
        let d' = with_status d (in_progress sending (record t { progress_bytes = offset })) in
        on_some (unlock d' contact) (panicked) (λ unlocked.
          send_chunks_loop o peer loop_fuel contact
            (some (
              with_sending files
                (record d' { send_manager = set_progress o.files d'.send_manager offset })))
            s))

  unfoldable pub receive_accept_continue :
      ℕ → Option ContactId → Option (PeerFiles F) → Scene W → Handled (Run W F)
  receive_accept_continue offset contact none s = report_violation s
  receive_accept_continue offset contact (some files) s =
      on_some files.sending (violation files s)
        (λ d. when_verified files d contact (continue_sending files contact offset) s)

  -- `ConfirmChunk` for the chunk that the request carried.
  unfoldable pub acknowledge_chunk :
      PeerFiles F → LockedSendData ℕ F → Option ContactId → ℕ → Scene W → Handled (Run W F)
  acknowledge_chunk files d contact request s =
      on_some (in_status sending d.pending_file.status) (violation files s) (λ t.
        on_some (mark_done d.send_manager request) (panicked) (λ m.
          let status = in_progress sending (record t { progress_bytes = m.progress_bytes }) in
          send_chunks_loop o peer loop_fuel contact
            (some (with_sending files (record (with_status d status) { send_manager = m })))
            (tell (notify (file_sending d.pending_file.id status)) s)))

  -- The request's id is an error if the registry does not know it.
  unfoldable pub receive_confirm_chunk :
      Option ℕ → Option ContactId → Option (PeerFiles F) → Scene W → Handled (Run W F)
  receive_confirm_chunk id contact none s = report_violation s
  receive_confirm_chunk none contact (some files) s =
      returned (reset_all_on_internal_error_for o peer (some files) s)
  receive_confirm_chunk (some request) contact (some files) s =
      on_some files.sending (violation files s) (λ d.
        on_some (unlock d contact) (returned (reset_all (some files) s).1)
          (λ unlocked. acknowledge_chunk files d contact request s))

  -- The slot is emptied before the status is looked at.
  unfoldable pub receive_reject_chunk : Option (PeerFiles F) → Scene W → Handled (Run W F)
  receive_reject_chunk none s = report_violation s
  receive_reject_chunk (some files) s = on_some files.sending (violation files s) (λ d.
      on_some (in_status sending d.pending_file.status) (violation (without_sending files) s)
        (λ t. finish_rejected files d s))

  unfoldable pub receive_confirm_abort : Option (PeerFiles F) → Scene W → Handled (Run W F)
  receive_confirm_abort none s = unchanged none s
  receive_confirm_abort (some files) s =
      on_some files.sending (returned (send_next o peer files.pending none s))
        (λ d. unchanged (some files) s)

  unfoldable pub receive_confirm_done : Option (PeerFiles F) → Scene W → Handled (Run W F)
  receive_confirm_done none s = report_violation s
  receive_confirm_done (some files) s = on_some files.sending (violation files s) (λ d.
      on_some (in_status pending_sent d.pending_file.status) (violation files s)
        (λ t. returned (complete_file o peer (without_sending files) d.pending_file.id sent s)))

  unfoldable pub receive_reject_done : Option (PeerFiles F) → Scene W → Handled (Run W F)
  receive_reject_done none s = report_violation s
  receive_reject_done (some files) s = on_some files.sending (violation files s) (λ d.
      on_some (in_status pending_sent d.pending_file.status) (violation files s)
        (λ t. finish_rejected files d s))

  unfoldable pub receive_violation : Option (PeerFiles F) → Scene W → Handled (Run W F)
  receive_violation none s = unchanged none s
  receive_violation (some files) s = on_some files.sending (unchanged (some files) s) (λ d.
      returned
        (reset_and_retry o peer (without_sending files) (raise_retry_count d) remote_violation s))

  unfoldable pub receive_internal_error : Option (PeerFiles F) → Scene W → Handled (Run W F)
  receive_internal_error none s = unchanged none s
  receive_internal_error (some files) s = on_some files.sending (unchanged (some files) s) (λ d.
      returned
        (reset_and_stop (without_sending files) (raise_retry_count d) remote_internal_error s))

  -- Without a file in the slot it waits for the lock that it holds.
  unfoldable pub receive_reject_continue :
      Option ContactId → Option (PeerFiles F) → Scene W → Handled (Run W F)
  receive_reject_continue contact none s = unchanged none s
  receive_reject_continue contact (some files) s =
      on_some files.sending (deadlocked)
        (λ d. when_verified files d contact (finish_rejected files) s)

  unfoldable pub receive_response :
      Option ContactId
      → Option ℕ
      → FileResponse
      → Option (PeerFiles F)
      → Scene W
      → Handled (Run W F)
  receive_response contact id accept_new_transfer entry s = receive_accept_new contact entry s
  receive_response contact id restart_continue_transfer entry s = receive_accept_new contact entry s
  receive_response contact id reject_new_transfer entry s = receive_reject_new contact entry s
  receive_response contact id (accept_continue_transfer offset) entry s =
      receive_accept_continue offset contact entry s
  receive_response contact id confirm_chunk entry s = receive_confirm_chunk id contact entry s
  receive_response contact id reject_chunk entry s = receive_reject_chunk entry s
  receive_response contact id confirm_abort entry s = receive_confirm_abort entry s
  receive_response contact id confirm_done entry s = receive_confirm_done entry s
  receive_response contact id reject_done entry s = receive_reject_done entry s
  receive_response contact id acknowledge_protocol_violation entry s = unchanged entry s
  receive_response contact id protocol_violation entry s = receive_violation entry s
  receive_response contact id internal_error entry s = receive_internal_error entry s
  receive_response contact id reject_continue_transfer entry s =
      receive_reject_continue contact entry s
