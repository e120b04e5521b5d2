-- ===== src/P2p/FileTracker/Phases/Answers.antt =====
-- fyles_service/p2p/src/event_loop/filerequest/file_tracker.rs: the response of
-- each kind follows the machine of the sending slot.
use fyles_release.Base.{ℕ, ◌≡◌, refl, Option, none, some, on_some-Holds, nat_eq}
use fyles_release.P2p.Types.{ContactId, PeerId}
use fyles_release.P2p.Transfer.SendData.{LockedSendData, unlock}
use fyles_release.Core.Domain.{TransferData, sending, pending_sent}
use fyles_release.P2p.FileTracker.{
  tell, notify, file_sent, Outside, Scene, PeerFiles, Run, Handled, returned, FileOutcome,
  remote_violation, remote_internal_error,
}
use fyles_release.P2p.FileTracker
use fyles_release.P2p.FileTracker.Next.{outcome_action, complete_file}
use fyles_release.P2p.FileTracker.Reset.{raise_retry_count}
use fyles_release.P2p.FileTracker.Chunks.{with_sending}
use fyles_release.P2p.FileTracker.Responses
use fyles_release.P2p.FileTracker.Responses.{
  in_status, without_sending, report_violation, start_sending, receive_accept_new, finish_rejected,
  receive_reject_new, continue_sending, receive_accept_continue, acknowledge_chunk,
  receive_confirm_chunk, receive_reject_chunk, receive_confirm_abort, receive_confirm_done,
  receive_reject_done, receive_violation, receive_internal_error, receive_reject_continue,
}
use fyles_release.P2p.FileTracker.Phases.{
  Kind, accepting, acknowledging, delivering, other, deliver, leave, here, next, Steps-trans,
  slot_phase, delivered, Refines, RefinesHandled, precede,
}
use fyles_release.P2p.FileTracker.Phases.Next.{send_next-FromIdle}
use fyles_release.P2p.FileTracker.Phases.Reset.{
  reset_all-Refines, violation_for-Refines, internal_error_for-Refines, reset_and_stop-Frees,
  reset_and_retry-Frees,
}
use fyles_release.P2p.FileTracker.Phases.Responses.{
  in_status-some, when_verified-Refines, start_sending-Refines, continue_sending-Refines,
  finish_rejected-Refines, acknowledge_chunk-Refines,
}

module _ {W F : Type 0} (o : Outside W F) (peer : PeerId) (s : Scene W) where
  abbrev Fine : Kind → Option (PeerFiles F) → Handled (Run W F) → Type 0
  Fine k entry = RefinesHandled k entry s

  pub receive_accept_new-Refines :
      (contact : Option ContactId) (entry : Option (PeerFiles F))
      → Fine accepting entry (receive_accept_new o peer contact entry s)
  unfolding receive_accept_new report_violation
  receive_accept_new-Refines contact none = (here, λ k. k)
  receive_accept_new-Refines contact (some files) =
      on_some-Holds {B = Handled (Run W F)} (Fine accepting (some files)) files.sending
        (λ e. violation_for-Refines o peer (some files) s)
        (λ d e. rw e (
          when_verified-Refines accepting o peer (with_sending files d) d contact
            (start_sending o peer (with_sending files d) contact) s
            (start_sending-Refines accepting o peer (with_sending files d) refl contact)))

  pub receive_accept_continue-Refines :
      (offset : ℕ) (contact : Option ContactId) (entry : Option (PeerFiles F))
      → Fine accepting entry (receive_accept_continue o peer offset contact entry s)
  unfolding receive_accept_continue report_violation
  receive_accept_continue-Refines offset contact none = (here, λ k. k)
  receive_accept_continue-Refines offset contact (some files) =
      on_some-Holds {B = Handled (Run W F)} (Fine accepting (some files)) files.sending
        (λ e. violation_for-Refines o peer (some files) s)
        (λ d e. rw e (
          when_verified-Refines accepting o peer (with_sending files d) d contact
            (continue_sending o peer (with_sending files d) contact offset) s
            (continue_sending-Refines accepting o peer (with_sending files d) refl contact offset)))

  rejected-Refines :
      (contact : Option ContactId) (files : PeerFiles F) (d : LockedSendData ℕ F)
      → files.sending ≡ some d
      → Fine other
          (some files)
          (Responses.when_verified o peer files d contact (finish_rejected o peer files) s)
  rejected-Refines contact files d e = rw e (
      when_verified-Refines other o peer (with_sending files d) d contact
        (finish_rejected o peer (with_sending files d)) s
        (finish_rejected-Refines other o peer (with_sending files d)))

  pub receive_reject_new-Refines :
      (contact : Option ContactId) (entry : Option (PeerFiles F))
      → Fine other entry (receive_reject_new o peer contact entry s)
  unfolding receive_reject_new report_violation
  receive_reject_new-Refines contact none = (here, λ k. k)
  receive_reject_new-Refines contact (some files) =
      on_some-Holds {B = Handled (Run W F)} (Fine other (some files)) files.sending
        (λ e. violation_for-Refines o peer (some files) s) (rejected-Refines contact files)

  pub receive_reject_continue-Refines :
      (contact : Option ContactId) (entry : Option (PeerFiles F))
      → Fine other entry (receive_reject_continue o peer contact entry s)
  unfolding receive_reject_continue
  receive_reject_continue-Refines contact none = (here, λ k. k)
  receive_reject_continue-Refines contact (some files) =
      on_some-Holds {B = Handled (Run W F)} (Fine other (some files)) files.sending (λ e. tt)
        (rejected-Refines contact files)

  pub receive_confirm_chunk-Refines :
      (request : Option ℕ) (contact : Option ContactId) (entry : Option (PeerFiles F))
      → Fine acknowledging entry (receive_confirm_chunk o peer request contact entry s)
  unfolding receive_confirm_chunk report_violation
  receive_confirm_chunk-Refines request contact none = (here, λ k. k)
  receive_confirm_chunk-Refines none contact (some files) =
      internal_error_for-Refines o peer (some files) s
  receive_confirm_chunk-Refines (some request) contact (some files) =
      on_some-Holds {B = Handled (Run W F)} (Fine acknowledging (some files)) files.sending
        (λ e. violation_for-Refines o peer (some files) s)
        (λ d e.
          on_some-Holds {B = Handled (Run W F)} (Fine acknowledging (some files)) (unlock d contact)
            (λ u. reset_all-Refines (some files) s)
            (λ unlocked u. rw e (
              acknowledge_chunk-Refines acknowledging o peer (with_sending files d) refl d contact
                request s)))

  pub receive_reject_chunk-Refines :
      (entry : Option (PeerFiles F)) → Fine other entry (receive_reject_chunk o peer entry s)
  unfolding receive_reject_chunk report_violation
  receive_reject_chunk-Refines none = (here, λ k. k)
  receive_reject_chunk-Refines (some files) =
      on_some-Holds {B = Handled (Run W F)} (Fine other (some files)) files.sending
        (λ e. violation_for-Refines o peer (some files) s)
        (λ d e.
          on_some-Holds {B = Handled (Run W F)} (Fine other (some files))
            (in_status sending d.pending_file.status)
            (λ u.
              precede (some files) (some (without_sending files)) s s
                (next here (leave (slot_phase files.sending) (delivered s.log))) (λ k. (k.0, tt))
                (Responses.violation o peer (without_sending files) s)
                (violation_for-Refines o peer (some (without_sending files)) s))
            (λ t u. rw e (finish_rejected-Refines other o peer (with_sending files d) d s)))

  pub receive_confirm_abort-Refines :
      (entry : Option (PeerFiles F)) → Fine other entry (receive_confirm_abort o peer entry s)
  unfolding receive_confirm_abort
  receive_confirm_abort-Refines none = (here, λ k. k)
  receive_confirm_abort-Refines (some files) =
      on_some-Holds {B = Handled (Run W F)} (Fine other (some files)) files.sending
        (λ e.
          let (steps, tracked) = send_next-FromIdle o peer files.pending s in
          rw e (steps, λ k. tracked k.0))
        (λ d e. (here, λ k. k))

  -- A file is delivered from the last phase only.
  delivered-Refines :
      (files : PeerFiles F) (d : LockedSendData ℕ F) (t : TransferData)
      → in_status pending_sent d.pending_file.status ≡ some t
      → Refines delivering
          (some (with_sending files d))
          s
          (complete_file o peer (without_sending files) d.pending_file.id FileTracker.sent s)
  unfolding complete_file
  delivered-Refines files d t u =
      let (steps, tracked) =
        send_next-FromIdle o peer files.pending
          (tell (notify (outcome_action FileTracker.sent d.pending_file.id)) s) in
      (
        rw (in_status-some pending_sent d.pending_file.status t u)
            (Steps-trans (next here (deliver d.pending_file.id (delivered s.log) refl)) steps),
        λ k. tracked k.0,
      )

  pub receive_confirm_done-Refines :
      (entry : Option (PeerFiles F)) → Fine delivering entry (receive_confirm_done o peer entry s)
  unfolding receive_confirm_done report_violation
  receive_confirm_done-Refines none = (here, λ k. k)
  receive_confirm_done-Refines (some files) =
      on_some-Holds {B = Handled (Run W F)} (Fine delivering (some files)) files.sending
        (λ e. violation_for-Refines o peer (some files) s)
        (λ d e.
          on_some-Holds {B = Handled (Run W F)} (Fine delivering (some files))
            (in_status pending_sent d.pending_file.status)
            (λ u. violation_for-Refines o peer (some files) s)
            (λ t u. rw e (delivered-Refines (with_sending files d) d t u)))

  pub receive_reject_done-Refines :
      (entry : Option (PeerFiles F)) → Fine other entry (receive_reject_done o peer entry s)
  unfolding receive_reject_done report_violation
  receive_reject_done-Refines none = (here, λ k. k)
  receive_reject_done-Refines (some files) =
      on_some-Holds {B = Handled (Run W F)} (Fine other (some files)) files.sending
        (λ e. violation_for-Refines o peer (some files) s)
        (λ d e.
          on_some-Holds {B = Handled (Run W F)} (Fine other (some files))
            (in_status pending_sent d.pending_file.status)
            (λ u. violation_for-Refines o peer (some files) s)
            (λ t u. rw e (finish_rejected-Refines other o peer (with_sending files d) d s)))

  pub receive_violation-Refines :
      (entry : Option (PeerFiles F)) → Fine other entry (receive_violation o peer entry s)
  unfolding receive_violation
  receive_violation-Refines none = (here, λ k. k)
  receive_violation-Refines (some files) =
      on_some-Holds {B = Handled (Run W F)} (Fine other (some files)) files.sending
        (λ e. (here, λ k. k))
        (λ d e.
          let (steps, tracked) =
            reset_and_retry-Frees o peer (without_sending files) (raise_retry_count d)
              remote_violation s refl in
          rw e (steps, λ k. tracked k.0))

  pub receive_internal_error-Refines :
      (entry : Option (PeerFiles F)) → Fine other entry (receive_internal_error o peer entry s)
  unfolding receive_internal_error
  receive_internal_error-Refines none = (here, λ k. k)
  receive_internal_error-Refines (some files) =
      on_some-Holds {B = Handled (Run W F)} (Fine other (some files)) files.sending
        (λ e. (here, λ k. k))
        (λ d e.
          let (steps, tracked) =
            reset_and_stop-Frees (without_sending files) (raise_retry_count d) remote_internal_error
              s refl in
          rw e (steps, λ k. tracked k.0))
