-- ===== src/P2p/FileTracker/Phases/Others.antt =====
-- fyles_service/p2p/src/event_loop/filerequest/file_tracker.rs: every call, and every sequence of
-- calls, follows the machine of the sending slot and keeps the files tracked.
use fyles_release.Base.{
  ℕ, refl, Bool, false, not, Bool-cases, inl, inr, Option, none, some, List, [], ◌∷◌, retain,
  length, ◌==◌, on_some-Holds,
}
use fyles_release.P2p.Types.{PeerId, abort_transfer}
use fyles_release.P2p.Transfer.SendData.{LockedSendData, get_transfer_id}
use fyles_release.Core.Domain.{PendingFile}
use fyles_release.P2p.FileTracker.{
  rejected, remote_failure, request_timeout, transport_failure, session_failure, resend_failure,
  pending_file_removed, plugin, tell, Outside, Scene, PeerFiles, Run, send_and_forget,
}
use fyles_release.P2p.FileTracker.Chunks.{with_sending}
use fyles_release.P2p.FileTracker.Responses.{without_sending}
use fyles_release.P2p.FileTracker.Errors.{
  OutboundFailure, dial_failure, connection_closed, unsupported_protocols, io, LocalReceiveError,
  missing_session, decrypt_error, resend_error, transport_error, ReceiveError, remote_error,
  local_error, fail_transport, fail_sending, handle_receive_error,
}
use fyles_release.P2p.FileTracker.Cancel.{
  can_wait, is_empty, add_pending_file, has_sending_files_for, reset_for_disconnected_peer,
  cancel_pending, trigger_interaction_with, cancel_sending, cancel_files,
}
use fyles_release.P2p.FileTracker.Calls.{
  Call, respond, fail, add, trigger, disconnect, cancel, perform,
}
use fyles_release.P2p.FileTracker.Phases.{
  Kind, kind_of, other, leave, here, next, Steps-trans, slot_phase, delivered, AllWait,
  AllWait-append, Refines, RefinesHandled,
}
use fyles_release.P2p.FileTracker.Phases.Next.{send_next-FromIdle}
use fyles_release.P2p.FileTracker.Phases.Reset.{
  Frees, reset_all-Refines, completed-Frees, reset_and_stop-Frees, reset_and_retry-Frees,
}
use fyles_release.P2p.FileTracker.Phases.Whole.{receive_response-Refines}

module _ {W F : Type 0} (o : Outside W F) (peer : PeerId) (s : Scene W) where
  fail_transport-Frees :
      (files : PeerFiles F) (d : LockedSendData ℕ F) (e : OutboundFailure)
      → Frees other
          (without_sending files)
          d
          s
          (fail_transport o peer (without_sending files) d e s)
  unfolding fail_transport
  fail_transport-Frees files d dial_failure =
      reset_and_stop-Frees (without_sending files) d transport_failure s refl
  fail_transport-Frees files d OutboundFailure.timeout =
      reset_and_stop-Frees (without_sending files) d transport_failure s refl
  fail_transport-Frees files d io =
      reset_and_stop-Frees (without_sending files) d transport_failure s refl
  fail_transport-Frees files d connection_closed =
      reset_and_stop-Frees (without_sending files) d transport_failure s refl
  fail_transport-Frees files d unsupported_protocols =
      completed-Frees o peer (without_sending files) d rejected s refl refl

  fail_sending-Frees :
      (files : PeerFiles F) (d : LockedSendData ℕ F) (e : ReceiveError)
      → Frees other (without_sending files) d s (fail_sending o peer (without_sending files) d e s)
  unfolding fail_sending
  fail_sending-Frees files d remote_error =
      reset_and_retry-Frees o peer (without_sending files) d remote_failure s refl
  fail_sending-Frees files d (local_error LocalReceiveError.timeout) =
      reset_and_stop-Frees (without_sending files) d request_timeout s refl
  fail_sending-Frees files d (local_error (transport_error e)) = fail_transport-Frees files d e
  fail_sending-Frees files d (local_error missing_session) =
      reset_and_retry-Frees o peer (without_sending files) d session_failure s refl
  fail_sending-Frees files d (local_error decrypt_error) =
      reset_and_retry-Frees o peer (without_sending files) d session_failure s refl
  fail_sending-Frees files d (local_error resend_error) =
      reset_and_retry-Frees o peer (without_sending files) d resend_failure s refl

  handle_receive_error-Refines :
      (e : ReceiveError) (entry : Option (PeerFiles F))
      → Refines other entry s (handle_receive_error o peer e entry s)
  unfolding handle_receive_error
  handle_receive_error-Refines e none = (here, λ k. k)
  handle_receive_error-Refines e (some files) =
      on_some-Holds {B = Run W F} (Refines other (some files) s) files.sending (λ q. (here, λ k. k))
        (λ d q.
          let (steps, tracked) = fail_sending-Frees (with_sending files d) d e in
          rw q (steps, λ k. tracked k.0))

  add_pending_file-Refines :
      (p : PendingFile) (entry : Option (PeerFiles F))
      → Refines other entry s (add_pending_file p entry s)
  unfolding add_pending_file
  add_pending_file-Refines p none = elim (Bool-cases (can_wait p.status)) [
    | inl e ↦ rw e (here, λ k. ((e, tt), tt))
    | inr e ↦ rw e (here, λ k. k)
  ]
  add_pending_file-Refines p (some files) = elim (Bool-cases (can_wait p.status)) [
    | inl e ↦ rw e (here, λ k. (AllWait-append files.pending (p ∷ []) k.0 (e, tt), k.1))
    | inr e ↦ rw e (here, λ k. k)
  ]

  reset_for_disconnected_peer-Refines :
      (entry : Option (PeerFiles F)) → Refines other entry s (reset_for_disconnected_peer entry s)
  unfolding reset_for_disconnected_peer
  reset_for_disconnected_peer-Refines entry = elim (Bool-cases (has_sending_files_for entry)) [
    | inl e ↦ rw e (reset_all-Refines entry s)
    | inr e ↦ rw e (here, λ k. k)
  ]

  trigger_interaction_with-Refines :
      (entry : Option (PeerFiles F))
      → Refines other entry s (trigger_interaction_with o peer entry s)
  unfolding trigger_interaction_with
  trigger_interaction_with-Refines none = (here, λ k. k)
  trigger_interaction_with-Refines (some files) =
      on_some-Holds {B = Run W F} (Refines other (some files) s) files.sending
        (λ e.
          let (steps, tracked) = send_next-FromIdle o peer files.pending s in
          rw e (steps, λ k. tracked k.0))
        (λ d e. (here, λ k. k))

  AllWait-retain :
      (test : PendingFile → Bool) (ps : List PendingFile) → AllWait ps → AllWait (retain test ps)
  AllWait-retain test [] k = tt
  AllWait-retain test (p ∷ ps) k = elim (Bool-cases (test p)) [
    | inl e ↦ rw e (k.0, AllWait-retain test ps k.1)
    | inr e ↦ rw e (AllWait-retain test ps k.1)
  ]

  cancel_pending-Refines :
      (test : PendingFile → Bool) (files : PeerFiles F)
      → Refines other (some files) s (cancel_pending test files s).1
  unfolding cancel_pending
  cancel_pending-Refines test files =
      let kept = retain (λ p. not (test p)) files.pending in
      elim (Bool-cases (length files.pending == length kept)) [
        | inl e ↦ rw e (here, λ k. (AllWait-retain (λ p. not (test p)) files.pending k.0, k.1))
        | inr e ↦ rw e (here, λ k. (AllWait-retain (λ p. not (test p)) files.pending k.0, k.1))
      ]

  cancel_sending-Frees :
      (files : PeerFiles F) (d : LockedSendData ℕ F)
      → Frees other files d s (cancel_sending o peer files d s)
  unfolding cancel_sending
  cancel_sending-Frees files d =
      let s' =
        send_and_forget o peer (some d.pending_file.contact_id)
          (abort_transfer (some (get_transfer_id d))) s in
      let (steps, tracked) =
        send_next-FromIdle o peer files.pending
          (tell (plugin (pending_file_removed (not (is_empty files.pending)) false)) s') in
      (Steps-trans (next here (leave (slot_phase (some d)) (delivered s.log))) steps, tracked)

  cancel_files-Refines :
      (test : PendingFile → Bool) (entry : Option (PeerFiles F))
      → Refines other entry s (cancel_files o peer test entry s).1
  unfolding cancel_files
  cancel_files-Refines test none = (here, λ k. k)
  cancel_files-Refines test (some files) =
      on_some-Holds {B = Bool × Run W F} (λ res. Refines other (some files) s res.1) files.sending
        (λ e. cancel_pending-Refines test files)
        (λ d e.
          let (steps, tracked) = cancel_sending-Frees (with_sending files d) d in
          elim (Bool-cases (test d.pending_file)) [
            | inl t ↦ rw (e, t) (steps, λ k. tracked k.0)
            | inr t ↦ rw t (cancel_pending-Refines test files)
          ])

abbrev pub call_kind : Call → Kind
call_kind (respond contact request response) = kind_of response
call_kind (fail e) = other
call_kind (add p) = other
call_kind trigger = other
call_kind disconnect = other
call_kind (cancel test) = other

module _ {W F : Type 0} (o : Outside W F) (peer : PeerId) where
  pub perform-Refines :
      (c : Call) (entry : Option (PeerFiles F)) (s : Scene W)
      → RefinesHandled (call_kind c) entry s (perform o peer c entry s)
  unfolding perform
  perform-Refines (respond contact request response) entry s =
      receive_response-Refines o peer contact request response entry s
  perform-Refines (fail e) entry s = handle_receive_error-Refines o peer s e entry
  perform-Refines (add p) entry s = add_pending_file-Refines o peer s p entry
  perform-Refines trigger entry s = trigger_interaction_with-Refines o peer s entry
  perform-Refines disconnect entry s = reset_for_disconnected_peer-Refines o peer s entry
  perform-Refines (cancel test) entry s = cancel_files-Refines o peer s test entry
