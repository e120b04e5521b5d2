-- ===== src/P2p/FileTracker/Phases/Whole.antt =====
-- fyles_service/p2p/src/event_loop/filerequest/file_tracker.rs: every response
-- follows the machine of the sending slot, and keeps the files tracked.
use fyles_release.Base.{ℕ, Option, nat_eq}
use fyles_release.P2p.Types.{
  ContactId, PeerId, FileResponse, accept_new_transfer, reject_new_transfer,
  accept_continue_transfer, restart_continue_transfer, reject_continue_transfer, confirm_chunk,
  reject_chunk, confirm_abort, confirm_done, reject_done, acknowledge_protocol_violation,
  protocol_violation, internal_error,
}
use fyles_release.P2p.FileTracker.{Outside, Scene, PeerFiles}
use fyles_release.P2p.FileTracker.Responses
use fyles_release.P2p.FileTracker.Responses.{
  in_status, without_sending, report_violation, start_sending, receive_accept_new, finish_rejected,
  receive_reject_new, continue_sending, receive_accept_continue, acknowledge_chunk,
  receive_confirm_chunk, receive_reject_chunk, receive_confirm_abort, receive_confirm_done,
  receive_reject_done, receive_violation, receive_internal_error, receive_reject_continue,
}
use fyles_release.P2p.FileTracker.Phases.{kind_of, here, RefinesHandled}
use fyles_release.P2p.FileTracker.Phases.Answers.{
  receive_accept_continue-Refines, receive_accept_new-Refines, receive_confirm_abort-Refines,
  receive_confirm_chunk-Refines, receive_confirm_done-Refines, receive_internal_error-Refines,
  receive_reject_chunk-Refines, receive_reject_continue-Refines, receive_reject_done-Refines,
  receive_reject_new-Refines, receive_violation-Refines,
}

module _ {W F : Type 0} (o : Outside W F) (peer : PeerId) where
  -- Every response that returns follows the machine of the slot, and keeps the files tracked.
  pub receive_response-Refines :
      (contact : Option ContactId) (request : Option ℕ) (response : FileResponse)
      (entry : Option (PeerFiles F)) (s : Scene W)
      → RefinesHandled
          (kind_of response)
          entry
          s
          (Responses.receive_response o peer contact request response entry s)
  unfolding Responses.receive_response
  receive_response-Refines contact request accept_new_transfer entry s =
      receive_accept_new-Refines o peer s contact entry
  receive_response-Refines contact request restart_continue_transfer entry s =
      receive_accept_new-Refines o peer s contact entry
  receive_response-Refines contact request reject_new_transfer entry s =
      receive_reject_new-Refines o peer s contact entry
  receive_response-Refines contact request (accept_continue_transfer offset) entry s =
      receive_accept_continue-Refines o peer s offset contact entry
  receive_response-Refines contact request reject_continue_transfer entry s =
      receive_reject_continue-Refines o peer s contact entry
  receive_response-Refines contact request confirm_chunk entry s =
      receive_confirm_chunk-Refines o peer s request contact entry
  receive_response-Refines contact request reject_chunk entry s =
      receive_reject_chunk-Refines o peer s entry
  receive_response-Refines contact request confirm_abort entry s =
      receive_confirm_abort-Refines o peer s entry
  receive_response-Refines contact request confirm_done entry s =
      receive_confirm_done-Refines o peer s entry
  receive_response-Refines contact request reject_done entry s =
      receive_reject_done-Refines o peer s entry
  receive_response-Refines contact request acknowledge_protocol_violation entry s = (here, λ k. k)
  receive_response-Refines contact request protocol_violation entry s =
      receive_violation-Refines o peer s entry
  receive_response-Refines contact request internal_error entry s =
      receive_internal_error-Refines o peer s entry
