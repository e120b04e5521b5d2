-- ===== src/P2p/FileTracker/Accounts/Responses.antt =====
-- fyles_service/p2p/src/event_loop/filerequest/file_tracker.rs: the responses that a
-- verification precedes, and those to chunks, keep account of every file.
use fyles_release.Base.{
  nat_eq, ℕ, ◌+◌, ◌≡◌, ◌∙◌, ap, refl, Option, none, some, on_some-Holds, arith,
}
use fyles_release.P2p.Types.{FylesId, ContactId, PeerId}
use fyles_release.P2p.Transfer.SendManager.{mark_done, set_progress}
use fyles_release.P2p.Transfer.SendData.{LockedSendData, unlock}
use fyles_release.Core.Domain.{prepared, sending, in_progress}
use fyles_release.P2p.FileTracker.{
  Outside, Scene, PeerFiles, Run, Handled, returned, deadlocked, panicked, out_of_fuel, FileOutcome,
  tell, notify, file_sending, remote_violation, remote_internal_error,
}
use fyles_release.P2p.FileTracker
use fyles_release.P2p.FileTracker.Next.{complete_file}
use fyles_release.P2p.FileTracker.Reset.{
  reset_all, reset_all_on_internal_error_for, reset_all_on_protocol_violation_for,
}
use fyles_release.P2p.FileTracker.Chunks.{with_status, with_sending, send_chunks_loop, loop_fuel}
use fyles_release.P2p.FileTracker.Verify.{
  ContactVerificationResult, verified, contact_is_unknown, verification_failed,
  verify_target_contact_id, judge,
}
use fyles_release.P2p.FileTracker.Verify
use fyles_release.P2p.FileTracker.Responses.{
  in_status, unverified, without_sending, report_violation, after_verification, when_verified,
  start_sending, receive_accept_new, finish_rejected, receive_reject_new, continue_sending,
  receive_accept_continue, acknowledge_chunk, receive_confirm_chunk, receive_reject_continue,
}
use fyles_release.P2p.FileTracker.Accounts.{Continues, held, ended, accounted, BalancesHandled}
use fyles_release.P2p.FileTracker.Accounts.Next.{complete_file-Balances}
use fyles_release.P2p.FileTracker.Accounts.Reset.{
  accounted-reset_all, accounted-violation_for, accounted-internal_error_for,
}
use fyles_release.P2p.FileTracker.Accounts.Chunks.{send_chunks_loop-Balances}

module _ {W F : Type 0} (id : FylesId) (o : Outside W F) (peer : PeerId) where
  -- The operation keeps account, from this many before.
  abbrev pub Sound : ℕ → Handled (Run W F) → Type 0
  Sound = BalancesHandled id (Continues o)

  pub exact : (before : ℕ) (run : Run W F) → accounted id run ≡ before → Sound before (returned run)
  exact before run e = (omega (arith, e), λ k. omega (arith, e))

  rebase : (m n : ℕ) (handled : Handled (Run W F)) → m ≡ n → Sound m handled → Sound n handled
  rebase m n handled e h = rw (← e) h

  pub violation-Sound :
      (entry : Option (PeerFiles F)) (s : Scene W)
      → Sound
          (held id entry + ended id s.log)
          (returned (reset_all_on_protocol_violation_for o peer entry s))
  violation-Sound entry s =
      exact (held id entry + ended id s.log) (reset_all_on_protocol_violation_for o peer entry s)
        (accounted-violation_for id o peer entry s)

  -- The file of the slot is completed.
  pub completed-Sound :
      (files : PeerFiles F) (d : LockedSendData ℕ F) (outcome : FileOutcome) (s : Scene W)
      → Sound
          (held id (some (with_sending files d)) + ended id s.log)
          (returned (complete_file o peer (without_sending files) d.pending_file.id outcome s))
  completed-Sound files d outcome s =
      let completed =
        complete_file-Balances id o peer (without_sending files) d.pending_file.id outcome s refl in
      (omega (arith, completed), λ k. omega (arith, completed.1 k))

  -- What follows a verification, if it is sound for the file of the slot.
  after_verification-Sound :
      (files : PeerFiles F) (d : LockedSendData ℕ F)
      (continue : LockedSendData ℕ F → Scene W → Handled (Run W F)) (before : ℕ)
      → ((d' : LockedSendData ℕ F) (s : Scene W)
          → d'.pending_file.id ≡ d.pending_file.id
          → Sound (held id (some (with_sending files d')) + ended id s.log) (continue d' s))
      → (answer : Handled (ContactVerificationResult × Scene W))
      → ((res : ContactVerificationResult) (s : Scene W)
          → answer ≡ returned (res, s)
          → held id (some (with_sending files d)) + ended id s.log ≡ before)
      → Sound before (after_verification o peer files d continue answer)
  unfolding after_verification
  after_verification-Sound files d continue before h (returned (contact_is_unknown, s)) log =
      rw (← log contact_is_unknown s refl) (h (unverified d) s refl)
  after_verification-Sound files d continue before h (returned (verified, s)) log =
      rw (← log verified s refl) (h d s refl)
  after_verification-Sound files d continue before h (returned (verification_failed, s)) log =
      exact before (reset_all (some (with_sending files d)) s).1
        (accounted-reset_all id (some (with_sending files d)) s ∙ log verification_failed s refl)
  after_verification-Sound files d continue before h (returned (Verify.internal_error, s)) log =
      exact before (reset_all_on_internal_error_for o peer (some (with_sending files d)) s) (
        accounted-internal_error_for id o peer (some (with_sending files d)) s
        ∙ log Verify.internal_error s refl)
  after_verification-Sound files d continue before h deadlocked log = tt
  after_verification-Sound files d continue before h panicked log = tt
  after_verification-Sound files d continue before h out_of_fuel log = tt

  log-verify :
      (target : ContactId) (connected : Option ContactId) (s s' : Scene W)
      (res : ContactVerificationResult)
      → verify_target_contact_id o target connected s ≡ returned (res, s')
      → ended id s'.log ≡ ended id s.log
  unfolding verify_target_contact_id judge
  log-verify target connected s s' res h = ground (arith, h)

  when_verified-Sound :
      (files : PeerFiles F) (d : LockedSendData ℕ F) (contact : Option ContactId)
      (continue : LockedSendData ℕ F → Scene W → Handled (Run W F)) (s : Scene W)
      → ((d' : LockedSendData ℕ F) (s' : Scene W)
          → d'.pending_file.id ≡ d.pending_file.id
          → Sound (held id (some (with_sending files d')) + ended id s'.log) (continue d' s'))
      → Sound
          (held id (some (with_sending files d)) + ended id s.log)
          (when_verified o peer files d contact continue s)
  when_verified-Sound files d contact continue s h =
      after_verification-Sound files d continue
        (held id (some (with_sending files d)) + ended id s.log) h
        (verify_target_contact_id o d.pending_file.contact_id contact s)
        (λ res s' e.
          ap (λ n. held id (some (with_sending files d)) + n)
            (log-verify d.pending_file.contact_id contact s s' res e))

  start_sending-Sound :
      (files : PeerFiles F) (contact : Option ContactId) (d : LockedSendData ℕ F) (s : Scene W)
      → Sound
          (held id (some (with_sending files d)) + ended id s.log)
          (start_sending o peer files contact d s)
  unfolding start_sending
  start_sending-Sound files contact d s =
      on_some-Holds (Sound (held id (some (with_sending files d)) + ended id s.log))
        (in_status prepared d.pending_file.status)
        (λ e. violation-Sound (some (with_sending files d)) s)
        (λ t e.
          send_chunks_loop-Balances id o peer loop_fuel contact
            (some (with_sending files (with_status d (in_progress sending t)))) s)

  continue_sending-Sound :
      (files : PeerFiles F) (contact : Option ContactId) (offset : ℕ) (d : LockedSendData ℕ F)
      (s : Scene W)
      → Sound
          (held id (some (with_sending files d)) + ended id s.log)
          (continue_sending o peer files contact offset d s)
  unfolding continue_sending
  continue_sending-Sound files contact offset d s =
      let Fine : Handled (Run W F) → Type 0 =
        Sound (held id (some (with_sending files d)) + ended id s.log) in
      on_some-Holds Fine (in_status prepared d.pending_file.status)
        (λ e. violation-Sound (some (with_sending files d)) s)
        (λ t e.
          let d' = with_status d (in_progress sending (record t { progress_bytes = offset })) in
          on_some-Holds Fine (unlock d' contact) (λ u. tt)
            (λ unlocked u.
              send_chunks_loop-Balances id o peer loop_fuel contact
                (some (
                  with_sending files
                    (record d' { send_manager = set_progress o.files d'.send_manager offset })))
                s))

  acknowledge_chunk-Sound :
      (files : PeerFiles F) (d : LockedSendData ℕ F) (contact : Option ContactId) (request : ℕ)
      (s : Scene W)
      → Sound
          (held id (some (with_sending files d)) + ended id s.log)
          (acknowledge_chunk o peer (with_sending files d) d contact request s)
  unfolding acknowledge_chunk
  acknowledge_chunk-Sound files d contact request s =
      let Fine : Handled (Run W F) → Type 0 =
        Sound (held id (some (with_sending files d)) + ended id s.log) in
      on_some-Holds Fine (in_status sending d.pending_file.status)
        (λ e. violation-Sound (some (with_sending files d)) s)
        (λ t e.
          on_some-Holds Fine (mark_done d.send_manager request) (λ u. tt)
            (λ m u.
              let status = in_progress sending (record t { progress_bytes = m.progress_bytes }) in
              let s' = tell (notify (file_sending d.pending_file.id status)) s in
              let loop = record (with_status d status) { send_manager = m } in
              rebase (held id (some (with_sending files d)) + ended id s'.log)
                (held id (some (with_sending files d)) + ended id s.log)
                (send_chunks_loop o peer loop_fuel contact (some (with_sending files loop)) s')
                (omega arith)
                (send_chunks_loop-Balances id o peer loop_fuel contact
                  (some (with_sending files loop)) s')))

  pub receive_accept_new-Sound :
      (contact : Option ContactId) (entry : Option (PeerFiles F)) (s : Scene W)
      → Sound (held id entry + ended id s.log) (receive_accept_new o peer contact entry s)
  unfolding receive_accept_new report_violation
  receive_accept_new-Sound contact none s = (omega arith, λ k. omega arith)
  receive_accept_new-Sound contact (some files) s =
      on_some-Holds (Sound (held id (some files) + ended id s.log)) files.sending
        (λ e. violation-Sound (some files) s)
        (λ d e. rw e (
          when_verified-Sound (with_sending files d) d contact
            (start_sending o peer (with_sending files d) contact) s
            (λ d' s' q. start_sending-Sound (with_sending files d) contact d' s')))

  pub receive_reject_new-Sound :
      (contact : Option ContactId) (entry : Option (PeerFiles F)) (s : Scene W)
      → Sound (held id entry + ended id s.log) (receive_reject_new o peer contact entry s)
  unfolding receive_reject_new report_violation finish_rejected
  receive_reject_new-Sound contact none s = (omega arith, λ k. omega arith)
  receive_reject_new-Sound contact (some files) s =
      on_some-Holds (Sound (held id (some files) + ended id s.log)) files.sending
        (λ e. violation-Sound (some files) s)
        (λ d e. rw e (
          when_verified-Sound (with_sending files d) d contact
            (finish_rejected o peer (with_sending files d)) s
            (λ d' s' q. completed-Sound (with_sending files d) d' FileTracker.rejected s')))

  pub receive_reject_continue-Sound :
      (contact : Option ContactId) (entry : Option (PeerFiles F)) (s : Scene W)
      → Sound (held id entry + ended id s.log) (receive_reject_continue o peer contact entry s)
  unfolding receive_reject_continue finish_rejected
  receive_reject_continue-Sound contact none s = (omega arith, λ k. omega arith)
  receive_reject_continue-Sound contact (some files) s =
      on_some-Holds (Sound (held id (some files) + ended id s.log)) files.sending (λ e. tt)
        (λ d e. rw e (
          when_verified-Sound (with_sending files d) d contact
            (finish_rejected o peer (with_sending files d)) s
            (λ d' s' q. completed-Sound (with_sending files d) d' FileTracker.rejected s')))

  pub receive_accept_continue-Sound :
      (offset : ℕ) (contact : Option ContactId) (entry : Option (PeerFiles F)) (s : Scene W)
      → Sound
          (held id entry + ended id s.log)
          (receive_accept_continue o peer offset contact entry s)
  unfolding receive_accept_continue report_violation
  receive_accept_continue-Sound offset contact none s = (omega arith, λ k. omega arith)
  receive_accept_continue-Sound offset contact (some files) s =
      on_some-Holds (Sound (held id (some files) + ended id s.log)) files.sending
        (λ e. violation-Sound (some files) s)
        (λ d e. rw e (
          when_verified-Sound (with_sending files d) d contact
            (continue_sending o peer (with_sending files d) contact offset) s
            (λ d' s' q. continue_sending-Sound (with_sending files d) contact offset d' s')))

  pub receive_confirm_chunk-Sound :
      (request : Option ℕ) (contact : Option ContactId) (entry : Option (PeerFiles F)) (s : Scene W)
      → Sound
          (held id entry + ended id s.log)
          (receive_confirm_chunk o peer request contact entry s)
  unfolding receive_confirm_chunk report_violation
  receive_confirm_chunk-Sound request contact none s = (omega arith, λ k. omega arith)
  receive_confirm_chunk-Sound none contact (some files) s =
      exact (held id (some files) + ended id s.log)
        (reset_all_on_internal_error_for o peer (some files) s)
        (accounted-internal_error_for id o peer (some files) s)
  receive_confirm_chunk-Sound (some request) contact (some files) s =
      let Fine : Handled (Run W F) → Type 0 = Sound (held id (some files) + ended id s.log) in
      on_some-Holds Fine files.sending (λ e. violation-Sound (some files) s)
        (λ d e.
          on_some-Holds Fine (unlock d contact)
            (λ u.
              exact (held id (some files) + ended id s.log) (reset_all (some files) s).1
                (accounted-reset_all id (some files) s))
            (λ unlocked u.
              rw e (acknowledge_chunk-Sound (with_sending files d) d contact request s)))
