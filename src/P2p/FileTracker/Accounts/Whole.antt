-- ===== src/P2p/FileTracker/Accounts/Whole.antt =====
-- fyles_service/p2p/src/event_loop/filerequest/file_tracker.rs: every response
-- keeps account of every file.
use fyles_release.Base.{nat_eq, ℕ, ◌+◌, ◌≡◌, true, Option, none, some, arith}
use fyles_release.P2p.Types.{
  FylesId, ContactId, PeerId, FileResponse, accept_new_transfer, reject_new_transfer,
  accept_continue_transfer, restart_continue_transfer, reject_continue_transfer, confirm_chunk,
  reject_chunk, confirm_abort, confirm_done, reject_done, acknowledge_protocol_violation,
  protocol_violation, internal_error,
}
use fyles_release.P2p.FileTracker.{
  Outside, Scene, PeerFiles, Run, Handled, returned, deadlocked, panicked, out_of_fuel, FileOutcome,
  tell, notify, file_sending, remote_violation, remote_internal_error,
}
use fyles_release.P2p.FileTracker
use fyles_release.P2p.FileTracker.Responses
use fyles_release.P2p.FileTracker.Responses.{
  in_status, unverified, without_sending, report_violation, after_verification, when_verified,
  start_sending, receive_accept_new, finish_rejected, receive_reject_new, continue_sending,
  receive_accept_continue, acknowledge_chunk, receive_confirm_chunk, receive_reject_chunk,
  receive_confirm_abort, receive_confirm_done, receive_reject_done, receive_violation,
  receive_internal_error, receive_reject_continue,
}
use fyles_release.P2p.FileTracker.Accounts.{Continues, held, ended, BalancesHandled}
use fyles_release.P2p.FileTracker.Accounts.Responses.{
  Sound, receive_accept_new-Sound, receive_reject_new-Sound, receive_reject_continue-Sound,
  receive_accept_continue-Sound, receive_confirm_chunk-Sound,
}
use fyles_release.P2p.FileTracker.Accounts.Answers.{
  finished-Sound, receive_confirm_abort-Sound, receive_internal_error-Sound,
  receive_reject_chunk-Sound, receive_violation-Sound, is_expected, weaken,
}

module _ {W F : Type 0} (id : FylesId) (o : Outside W F) (peer : PeerId) where
  -- Whatever a peer answers, if the call returns, then every file is held and reported together at
  -- most as often as before, and as often if no continuation is refused and the response is expected.
  pub receive_response_accounts :
      (contact : Option ContactId) (request : Option ℕ) (response : FileResponse)
      (entry : Option (PeerFiles F)) (s : Scene W)
      → BalancesHandled id
          (Continues o × (is_expected response entry ≡ true))
          (held id entry + ended id s.log)
          (Responses.receive_response o peer contact request response entry s)
  unfolding Responses.receive_response receive_confirm_done receive_reject_done report_violation
      finish_rejected
  receive_response_accounts contact request response entry s = by_response response entry
    where
      fine :
          (response : FileResponse) (entry : Option (PeerFiles F)) (handled : Handled (Run W F))
          → Sound id o peer (held id entry + ended id s.log) handled
          → BalancesHandled id
              (Continues o × (is_expected response entry ≡ true))
              (held id entry + ended id s.log)
              handled
      fine response entry handled h =
          weaken id (Continues o) (Continues o × (is_expected response entry ≡ true))
            (held id entry + ended id s.log) handled (λ q. q.0) h

      by_response :
          (response : FileResponse) (entry : Option (PeerFiles F))
          → BalancesHandled id
              (Continues o × (is_expected response entry ≡ true))
              (held id entry + ended id s.log)
              (Responses.receive_response o peer contact request response entry s)
      by_response accept_new_transfer entry =
          fine accept_new_transfer entry (receive_accept_new o peer contact entry s)
            (receive_accept_new-Sound id o peer contact entry s)
      by_response restart_continue_transfer entry =
          fine restart_continue_transfer entry (receive_accept_new o peer contact entry s)
            (receive_accept_new-Sound id o peer contact entry s)
      by_response reject_new_transfer entry =
          fine reject_new_transfer entry (receive_reject_new o peer contact entry s)
            (receive_reject_new-Sound id o peer contact entry s)
      by_response (accept_continue_transfer offset) entry =
          fine (accept_continue_transfer offset) entry
            (receive_accept_continue o peer offset contact entry s)
            (receive_accept_continue-Sound id o peer offset contact entry s)
      by_response reject_continue_transfer entry =
          fine reject_continue_transfer entry (receive_reject_continue o peer contact entry s)
            (receive_reject_continue-Sound id o peer contact entry s)
      by_response confirm_chunk entry =
          fine confirm_chunk entry (receive_confirm_chunk o peer request contact entry s)
            (receive_confirm_chunk-Sound id o peer request contact entry s)
      by_response reject_chunk entry = receive_reject_chunk-Sound id o peer entry s
      by_response confirm_abort entry =
          fine confirm_abort entry (receive_confirm_abort o peer entry s)
            (receive_confirm_abort-Sound id o peer entry s)
      by_response confirm_done none = (omega arith, λ k. omega arith)
      by_response confirm_done (some files) =
          fine confirm_done (some files) (receive_confirm_done o peer (some files) s)
            (finished-Sound id o peer files FileTracker.sent s)
      by_response reject_done none = (omega arith, λ k. omega arith)
      by_response reject_done (some files) =
          fine reject_done (some files) (receive_reject_done o peer (some files) s)
            (finished-Sound id o peer files FileTracker.rejected s)
      by_response acknowledge_protocol_violation entry = (omega arith, λ k. omega arith)
      by_response protocol_violation entry =
          fine protocol_violation entry (receive_violation o peer entry s)
            (receive_violation-Sound id o peer entry s)
      by_response internal_error entry =
          fine internal_error entry (receive_internal_error o peer entry s)
            (receive_internal_error-Sound id o peer entry s)
