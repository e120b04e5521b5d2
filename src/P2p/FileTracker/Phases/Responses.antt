-- ===== src/P2p/FileTracker/Phases/Responses.antt =====
-- fyles_service/p2p/src/event_loop/filerequest/file_tracker.rs: the responses that a verification
-- precedes, and those to chunks, follow the machine of the sending slot.
use fyles_release.Base.{true, ℕ, ◌≡◌, refl, Option, some, on_some-Holds, arith, nat_eq}
use fyles_release.P2p.Types.{ContactId, PeerId}
use fyles_release.P2p.Transfer.SendManager.{mark_done, set_progress}
use fyles_release.P2p.Transfer.SendData.{LockedSendData, unlock}
use fyles_release.Core.Domain.{
  TransferData, InProgressSendStatus, prepared, sending, SendStatus, in_progress,
}
use fyles_release.P2p.FileTracker.{
  tell, notify, file_sending, Outside, Scene, PeerFiles, Run, Handled, returned, deadlocked,
  panicked, out_of_fuel, FileOutcome,
}
use fyles_release.P2p.FileTracker
use fyles_release.P2p.FileTracker.Reset.{reset_all, reset_all_on_internal_error_for}
use fyles_release.P2p.FileTracker.Chunks.{with_status, with_sending, send_chunks_loop, loop_fuel}
use fyles_release.P2p.FileTracker.Verify.{
  ContactVerificationResult, verified, contact_is_unknown, verification_failed,
  verify_target_contact_id, judge,
}
use fyles_release.P2p.FileTracker.Verify
use fyles_release.P2p.FileTracker.Responses.{
  in_status, unverified, without_sending, after_verification, when_verified, start_sending,
  finish_rejected, continue_sending, acknowledge_chunk,
}
use fyles_release.P2p.FileTracker.Phases.{
  Kind, accepting, can_finish, accept, here, next, delivered, RefinesHandled, precede,
}
use fyles_release.P2p.FileTracker.Phases.Reset.{
  reset_all-Refines, violation_for-Refines, internal_error_for-Refines, completed-Frees,
}
use fyles_release.P2p.FileTracker.Phases.Chunks.{send_chunks_loop-Refines}

pub in_status-some :
    (wanted : InProgressSendStatus) (status : SendStatus) (t : TransferData)
    → in_status wanted status ≡ some t
    → status ≡ in_progress wanted t
in_status-some wanted status t h = ground (arith, h)

log-verify :
    {W F : Type 0} (o : Outside W F) (target : ContactId) (connected : Option ContactId)
    (s : Scene W) (res : ContactVerificationResult) (s' : Scene W)
    → verify_target_contact_id o target connected s ≡ returned (res, s')
    → s'.log ≡ s.log
unfolding verify_target_contact_id judge
log-verify o target connected s res s' h = ground (arith, h)

accepting-can : {k : Kind} → k ≡ accepting → can_finish k ≡ true
accepting-can accepts = rw accepts refl

module _ (k : Kind) {W F : Type 0} (o : Outside W F) (peer : PeerId) (files : PeerFiles F) where
  after_verification-Refines :
      (d : LockedSendData ℕ F) (continue : LockedSendData ℕ F → Scene W → Handled (Run W F))
      (s : Scene W)
      → ((d' : LockedSendData ℕ F) (s' : Scene W)
          → RefinesHandled k (some (with_sending files d')) s' (continue d' s'))
      → (answer : Handled (ContactVerificationResult × Scene W))
      → ((res : ContactVerificationResult) (s' : Scene W)
          → answer ≡ returned (res, s')
          → s'.log ≡ s.log)
      → RefinesHandled k
          (some (with_sending files d))
          s
          (after_verification o peer files d continue answer)
  unfolding after_verification
  after_verification-Refines d continue s h (returned (contact_is_unknown, s')) log =
      precede (some (with_sending files d)) (some (with_sending files (unverified d))) s s'
        (rw (log contact_is_unknown s' refl) here) (λ k. k) (continue (unverified d) s')
        (h (unverified d) s')
  after_verification-Refines d continue s h (returned (verified, s')) log =
      precede (some (with_sending files d)) (some (with_sending files d)) s s'
        (rw (log verified s' refl) here) (λ k. k) (continue d s') (h d s')
  after_verification-Refines d continue s h (returned (verification_failed, s')) log =
      precede (some (with_sending files d)) (some (with_sending files d)) s s'
        (rw (log verification_failed s' refl) here) (λ k. k)
        (returned (reset_all (some (with_sending files d)) s').1)
        (reset_all-Refines (some (with_sending files d)) s')
  after_verification-Refines d continue s h (returned (Verify.internal_error, s')) log =
      precede (some (with_sending files d)) (some (with_sending files d)) s s'
        (rw (log Verify.internal_error s' refl) here) (λ k. k)
        (returned (reset_all_on_internal_error_for o peer (some (with_sending files d)) s'))
        (internal_error_for-Refines o peer (some (with_sending files d)) s')
  after_verification-Refines d continue s h deadlocked log = tt
  after_verification-Refines d continue s h panicked log = tt
  after_verification-Refines d continue s h out_of_fuel log = tt

  pub when_verified-Refines :
      (d : LockedSendData ℕ F) (contact : Option ContactId)
      (continue : LockedSendData ℕ F → Scene W → Handled (Run W F)) (s : Scene W)
      → ((d' : LockedSendData ℕ F) (s' : Scene W)
          → RefinesHandled k (some (with_sending files d')) s' (continue d' s'))
      → RefinesHandled k
          (some (with_sending files d))
          s
          (when_verified o peer files d contact continue s)
  when_verified-Refines d contact continue s h =
      after_verification-Refines d continue s h
        (verify_target_contact_id o d.pending_file.contact_id contact s)
        (log-verify o d.pending_file.contact_id contact s)

  -- A file that is offered and accepted is sent from here on.
  accepted :
      k ≡ accepting
      → (d d' : LockedSendData ℕ F) (t t' : TransferData) (s : Scene W)
      → in_status prepared d.pending_file.status ≡ some t
      → d'.pending_file.status ≡ in_progress sending t'
      → d'.pending_file.id ≡ d.pending_file.id
      → (handled : Handled (Run W F)) → RefinesHandled k (some (with_sending files d')) s handled
      → RefinesHandled k (some (with_sending files d)) s handled
  accepted accepts d d' t t' s was now same handled h =
      precede (some (with_sending files d)) (some (with_sending files d')) s s
        (rw (in_status-some prepared d.pending_file.status t was, now, same)
          (next here (accept d.pending_file.id (delivered s.log) accepts)))
        (λ k. (k.0, rw now refl)) handled h

  pub start_sending-Refines :
      k ≡ accepting
      → (contact : Option ContactId) (d : LockedSendData ℕ F) (s : Scene W)
      → RefinesHandled k (some (with_sending files d)) s (start_sending o peer files contact d s)
  unfolding start_sending
  start_sending-Refines accepts contact d s =
      on_some-Holds {B = Handled (Run W F)} (RefinesHandled k (some (with_sending files d)) s)
        (in_status prepared d.pending_file.status)
        (λ e. violation_for-Refines o peer (some (with_sending files d)) s)
        (λ t e.
          let d' = with_status d (in_progress sending t) in
          accepted accepts d d' t t s e refl refl
            (send_chunks_loop o peer loop_fuel contact (some (with_sending files d')) s)
            (send_chunks_loop-Refines k (accepting-can accepts) o peer loop_fuel contact
              (some (with_sending files d')) s))

  pub continue_sending-Refines :
      k ≡ accepting
      → (contact : Option ContactId) (offset : ℕ) (d : LockedSendData ℕ F) (s : Scene W)
      → RefinesHandled k
          (some (with_sending files d))
          s
          (continue_sending o peer files contact offset d s)
  unfolding continue_sending
  continue_sending-Refines accepts contact offset d s =
      let Fine : Handled (Run W F) → Type 0 = RefinesHandled k (some (with_sending files d)) s in
      on_some-Holds Fine (in_status prepared d.pending_file.status)
        (λ e. violation_for-Refines o peer (some (with_sending files d)) s)
        (λ t e.
          let t' = record t { progress_bytes = offset } in
          let d' = with_status d (in_progress sending t') in
          let d2 = record d' { send_manager = set_progress o.files d'.send_manager offset } in
          on_some-Holds Fine (unlock d' contact) (λ u. tt)
            (λ unlocked u.
              accepted accepts d d2 t t' s e refl refl
                (send_chunks_loop o peer loop_fuel contact (some (with_sending files d2)) s)
                (send_chunks_loop-Refines k (accepting-can accepts) o peer loop_fuel contact
                  (some (with_sending files d2)) s)))

  pub finish_rejected-Refines :
      (d : LockedSendData ℕ F) (s : Scene W)
      → RefinesHandled k (some (with_sending files d)) s (finish_rejected o peer files d s)
  unfolding finish_rejected
  finish_rejected-Refines d s =
      let (steps, tracked) =
        completed-Frees o peer (without_sending files) d FileTracker.rejected s refl refl in
      (steps, λ k. tracked k.0)

  pub acknowledge_chunk-Refines :
      can_finish k ≡ true
      → (d : LockedSendData ℕ F) (contact : Option ContactId) (request : ℕ) (s : Scene W)
      → RefinesHandled k
          (some (with_sending files d))
          s
          (acknowledge_chunk o peer (with_sending files d) d contact request s)
  unfolding acknowledge_chunk
  acknowledge_chunk-Refines can d contact request s =
      let Fine : Handled (Run W F) → Type 0 = RefinesHandled k (some (with_sending files d)) s in
      on_some-Holds Fine (in_status sending d.pending_file.status)
        (λ e. violation_for-Refines o peer (some (with_sending files d)) s)
        (λ t e.
          on_some-Holds Fine (mark_done d.send_manager request) (λ u. tt)
            (λ m u.
              let status = in_progress sending (record t { progress_bytes = m.progress_bytes }) in
              let s' = tell (notify (file_sending d.pending_file.id status)) s in
              let d' = record (with_status d status) { send_manager = m } in
              precede (some (with_sending files d)) (some (with_sending files d')) s s'
                (rw (in_status-some sending d.pending_file.status t e) here) (λ k. (k.0, refl))
                (send_chunks_loop o peer loop_fuel contact (some (with_sending files d')) s')
                (send_chunks_loop-Refines k can o peer loop_fuel contact
                  (some (with_sending files d')) s')))
