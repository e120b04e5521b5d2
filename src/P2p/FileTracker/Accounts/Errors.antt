-- ===== src/P2p/FileTracker/Accounts/Errors.antt =====
-- fyles_service/p2p/src/event_loop/filerequest/file_tracker.rs: `handle_receive_error` keeps account of
-- every file.
use fyles_release.Base.{ℕ, ◌+◌, Option, none, some, on_some-Holds, arith, refl}
use fyles_release.P2p.Types.{FylesId, PeerId}
use fyles_release.P2p.Transfer.SendData.{LockedSendData}
use fyles_release.P2p.FileTracker.{
  rejected, ResetReason, remote_failure, request_timeout, transport_failure, session_failure,
  resend_failure, Outside, Scene, PeerFiles, Run,
}
use fyles_release.P2p.FileTracker.Reset.{reset_and_stop, reset_and_retry}
use fyles_release.P2p.FileTracker.Chunks.{with_sending}
use fyles_release.P2p.FileTracker.Responses.{without_sending}
use fyles_release.P2p.FileTracker.Errors.{
  OutboundFailure, dial_failure, connection_closed, unsupported_protocols, io, LocalReceiveError,
  missing_session, decrypt_error, resend_error, transport_error, ReceiveError, remote_error,
  local_error, fail_transport, fail_sending, handle_receive_error,
}
use fyles_release.P2p.FileTracker.Accounts.{Continues, held, ended, accounted, Balances}
use fyles_release.P2p.FileTracker.Accounts.Next.{complete_file-Balances}
use fyles_release.P2p.FileTracker.Accounts.Reset.{
  accounted-reset_and_stop, reset_and_retry-Balances,
}

module _ {W F : Type 0} (id : FylesId) (o : Outside W F) (peer : PeerId) (files : PeerFiles F)
    (d : LockedSendData ℕ F) (s : Scene W) where
  abbrev Kept : Run W F → Type 0
  Kept run =
      Balances (Continues o) (held id (some (with_sending files d)) + ended id s.log)
        (accounted id run)

  stop-Kept : (reason : ResetReason) → Kept (reset_and_stop (without_sending files) d reason s)
  stop-Kept reason =
      let stopped = accounted-reset_and_stop id (without_sending files) d reason s in
      (omega (arith, stopped), λ k. omega (arith, stopped))

  retry-Kept :
      (reason : ResetReason) → Kept (reset_and_retry o peer (without_sending files) d reason s)
  retry-Kept reason =
      let retried = reset_and_retry-Balances id o peer (without_sending files) d reason s refl in
      (omega (arith, retried), λ k. omega (arith, retried.1 k))

  fail_transport-Kept :
      (e : OutboundFailure) → Kept (fail_transport o peer (without_sending files) d e s)
  unfolding fail_transport
  fail_transport-Kept dial_failure = stop-Kept transport_failure
  fail_transport-Kept OutboundFailure.timeout = stop-Kept transport_failure
  fail_transport-Kept io = stop-Kept transport_failure
  fail_transport-Kept connection_closed = stop-Kept transport_failure
  fail_transport-Kept unsupported_protocols =
      let completed =
        complete_file-Balances id o peer (without_sending files) d.pending_file.id rejected s
          refl in
      (omega (arith, completed), λ k. omega (arith, completed.1 k))

  fail_sending-Kept : (e : ReceiveError) → Kept (fail_sending o peer (without_sending files) d e s)
  unfolding fail_sending
  fail_sending-Kept remote_error = retry-Kept remote_failure
  fail_sending-Kept (local_error LocalReceiveError.timeout) = stop-Kept request_timeout
  fail_sending-Kept (local_error (transport_error e)) = fail_transport-Kept e
  fail_sending-Kept (local_error missing_session) = retry-Kept session_failure
  fail_sending-Kept (local_error decrypt_error) = retry-Kept session_failure
  fail_sending-Kept (local_error resend_error) = retry-Kept resend_failure

module _ {W F : Type 0} (id : FylesId) (o : Outside W F) (peer : PeerId) where
  -- Whatever the error, every file is held and reported together at most as often as before, and as
  -- often if no continuation is refused.
  pub handle_receive_error_accounts :
      (e : ReceiveError) (entry : Option (PeerFiles F)) (s : Scene W)
      → Balances
          (Continues o)
          (held id entry + ended id s.log)
          (accounted id (handle_receive_error o peer e entry s))
  unfolding handle_receive_error
  handle_receive_error_accounts e none s = (omega arith, λ k. omega arith)
  handle_receive_error_accounts e (some files) s =
      on_some-Holds {B = Run W F}
        (λ run. Balances (Continues o) (held id (some files) + ended id s.log) (accounted id run))
        files.sending (λ q. (omega arith, λ k. omega arith))
        (λ d q. rw q (fail_sending-Kept id o peer (with_sending files d) d s e))
