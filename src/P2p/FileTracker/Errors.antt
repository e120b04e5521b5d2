-- ===== src/P2p/FileTracker/Errors.antt =====
-- fyles_service/p2p/src/event_loop/filerequest/file_tracker.rs: `handle_receive_error`, with the entry
-- of the peer. The errors are those of libp2p and of
-- fyles_service/p2p/src/send_receive_traits/session_send_receive.rs, without their texts.
use fyles_release.Base.{on_some, ℕ, Option, none, some}
use fyles_release.P2p.Types.{PeerId}
use fyles_release.P2p.Transfer.SendData.{LockedSendData}
use fyles_release.P2p.FileTracker.{
  rejected, remote_failure, request_timeout, transport_failure, session_failure, resend_failure,
  Outside, Scene, PeerFiles, Run,
}
use fyles_release.P2p.FileTracker.Next.{complete_file}
use fyles_release.P2p.FileTracker.Reset.{reset_and_stop, reset_and_retry}
use fyles_release.P2p.FileTracker.Responses.{without_sending}

pub data OutboundFailure : Type 0 where
  dial_failure timeout connection_closed unsupported_protocols io : OutboundFailure

pub data LocalReceiveError : Type 0 where
  timeout missing_session decrypt_error resend_error : LocalReceiveError
  transport_error : OutboundFailure → LocalReceiveError

pub data ReceiveError : Type 0 where
  remote_error : ReceiveError
  local_error : LocalReceiveError → ReceiveError

module _ {W F : Type 0} (o : Outside W F) (peer : PeerId) where
  unfoldable pub fail_transport :
      PeerFiles F → LockedSendData ℕ F → OutboundFailure → Scene W → Run W F
  fail_transport files d dial_failure s = reset_and_stop files d transport_failure s
  fail_transport files d OutboundFailure.timeout s = reset_and_stop files d transport_failure s
  fail_transport files d io s = reset_and_stop files d transport_failure s
  fail_transport files d connection_closed s = reset_and_stop files d transport_failure s
  fail_transport files d unsupported_protocols s =
      complete_file o peer files d.pending_file.id rejected s

  unfoldable pub fail_sending : PeerFiles F → LockedSendData ℕ F → ReceiveError → Scene W → Run W F
  fail_sending files d remote_error s = reset_and_retry o peer files d remote_failure s
  fail_sending files d (local_error LocalReceiveError.timeout) s =
      reset_and_stop files d request_timeout s
  fail_sending files d (local_error (transport_error e)) s = fail_transport files d e s
  fail_sending files d (local_error missing_session) s =
      reset_and_retry o peer files d session_failure s
  fail_sending files d (local_error decrypt_error) s =
      reset_and_retry o peer files d session_failure s
  fail_sending files d (local_error resend_error) s =
      reset_and_retry o peer files d resend_failure s

  unfoldable pub handle_receive_error : ReceiveError → Option (PeerFiles F) → Scene W → Run W F
  handle_receive_error e none s = record { files = none; scene = s }
  handle_receive_error e (some files) s =
      on_some files.sending (record { files = some files; scene = s })
        (λ d. fail_sending (without_sending files) d e s)
