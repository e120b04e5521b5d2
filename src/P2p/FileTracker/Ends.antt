-- ===== src/P2p/FileTracker/Ends.antt =====
-- fyles_service/p2p/src/event_loop/filerequest/file_tracker.rs: which responses make `receive_response`
-- return, wait for its own lock for ever, or panic.
pub mod Whole
use fyles_release.Base.{
  ℕ, ◌≡◌, ◌⊎◌, ◌∙◌, refl, Bool, true, false, Bool-cases, inl, inr, Option, none, some, Option-cases,
  on_some, on_some-Holds, nat_eq, ==_iff, arith,
}
use fyles_release.Base.HashMap.{lookup}
use fyles_release.P2p.Types.{
  ContactId, PeerId, FileResponse, accept_new_transfer, reject_new_transfer,
  accept_continue_transfer, restart_continue_transfer, reject_continue_transfer, confirm_chunk,
  reject_chunk, confirm_abort, confirm_done, reject_done, acknowledge_protocol_violation,
  protocol_violation, internal_error,
}
use fyles_release.P2p.Transfer.SendManager.{SendManager, mark_done, set_progress}
use fyles_release.P2p.Transfer.SendManager.Bounds.{IsBounded, mark_done-IsBounded}
use fyles_release.P2p.Transfer.SendData.{
  LockedSendData, contents, unlock, unlock_lem, is_some_and_equal,
}
use fyles_release.Core.Domain.{TransferData, prepared, sending, pending_sent, in_progress}
use fyles_release.P2p.FileTracker.{
  tell, notify, file_sending, Outside, Scene, PeerFiles, Run, Handled, returned, deadlocked,
  panicked, out_of_fuel,
}
use fyles_release.P2p.FileTracker.Chunks.{with_status, with_sending}
use fyles_release.P2p.FileTracker.Verify.{
  ContactVerificationResult, verified, contact_is_unknown, verification_failed,
  verify_target_contact_id, judge,
}
use fyles_release.P2p.FileTracker.Loop.{
  Returns, IsBoundedSlot, IsBoundedEntry, send_chunks_loop_lem,
}
use fyles_release.P2p.FileTracker.Responses.{
  in_status, unverified, report_violation, after_verification, when_verified, start_sending,
  receive_accept_new, finish_rejected, receive_reject_new, continue_sending,
  receive_accept_continue, acknowledge_chunk, receive_confirm_chunk, receive_reject_chunk,
  receive_confirm_abort, receive_confirm_done, receive_reject_done, receive_violation,
  receive_internal_error, receive_reject_continue, receive_response,
}

-- How a call ends: it returns, it waits for ever, it panics, or its loop does not end.
pub data End : Type 0 where
  returns waits panics loops : End

abbrev pub end_of {ℓ} : {A : Type ℓ} → Handled A → End
end_of (returned a) = returns
end_of deadlocked = waits
end_of panicked = panics
end_of out_of_fuel = loops

pub end_of-Returns {ℓ} : {A : Type ℓ} (h : Handled A) → Returns h → end_of h ≡ returns
end_of-Returns (returned a) r = refl
end_of-Returns deadlocked r = absurd r
end_of-Returns panicked r = absurd r
end_of-Returns out_of_fuel r = absurd r

module _ {W F : Type 0} (o : Outside W F) where
  -- A response that is verified waits for ever if the brain cannot tell whether the contact of the
  -- file is known. `nothing` is the end where no file is in the slot.
  abbrev pub end_verifying : End → Option (PeerFiles F) → Scene W → End
  end_verifying nothing none s = returns
  end_verifying nothing (some files) s = on_some files.sending nothing (λ d.
      on_some (o.is_contact_known s.world d.pending_file.contact_id).0 waits (λ known. returns))

  -- A confirmation panics if no chunk in flight is registered under its request.
  abbrev pub end_confirming : Option ContactId → Option ℕ → Option (PeerFiles F) → End
  end_confirming contact request none = returns
  end_confirming contact none (some files) = returns
  end_confirming contact (some request) (some files) = on_some files.sending returns (λ d.
      on_some (unlock d contact) returns (λ unlocked.
        on_some (in_status sending d.pending_file.status) returns
          (λ t. on_some (lookup request d.send_manager.chunk_to_index) panics (λ idx. returns))))

  abbrev pub expected_end :
      Option ContactId → Option ℕ → FileResponse → Option (PeerFiles F) → Scene W → End
  expected_end contact request accept_new_transfer entry s = end_verifying returns entry s
  expected_end contact request restart_continue_transfer entry s = end_verifying returns entry s
  expected_end contact request reject_new_transfer entry s = end_verifying returns entry s
  expected_end contact request (accept_continue_transfer offset) entry s =
      end_verifying returns entry s
  expected_end contact request reject_continue_transfer entry s = end_verifying waits entry s
  expected_end contact request confirm_chunk entry s = end_confirming contact request entry
  expected_end contact request reject_chunk entry s = returns
  expected_end contact request confirm_abort entry s = returns
  expected_end contact request confirm_done entry s = returns
  expected_end contact request reject_done entry s = returns
  expected_end contact request acknowledge_protocol_violation entry s = returns
  expected_end contact request protocol_violation entry s = returns
  expected_end contact request internal_error entry s = returns

-- The lock of the file opens for this contact.
abbrev pub IsOpen : {F : Type 0} → LockedSendData ℕ F → Option ContactId → Type 0
IsOpen d contact = (d.must_verify_contact_id ≡ false) ⊎ (contact ≡ some d.pending_file.contact_id)

equal-some :
    (contact : Option ContactId) (target : ContactId)
    → is_some_and_equal contact target ≡ true
    → contact ≡ some target
equal-some none target h = cc
equal-some (some connected) target h = ground (arith, h, ==_iff connected target)

module _ {W F : Type 0} (o : Outside W F) (target : ContactId) (connected : Option ContactId)
    (s : Scene W) where
  abbrev asked : Scene W
  asked = record s { world = (o.is_contact_known s.world target).1 }

  verify-none :
      (o.is_contact_known s.world target).0 ≡ none
      → verify_target_contact_id o target connected s ≡ deadlocked
  unfolding verify_target_contact_id judge
  verify-none e = rw e refl

  verify-false :
      (o.is_contact_known s.world target).0 ≡ some false
      → verify_target_contact_id o target connected s ≡ returned (contact_is_unknown, asked)
  unfolding verify_target_contact_id judge
  verify-false e = rw e refl

  verify-true :
      (o.is_contact_known s.world target).0 ≡ some true
      → is_some_and_equal connected target ≡ true
      → verify_target_contact_id o target connected s ≡ returned (verified, asked)
  unfolding verify_target_contact_id judge
  verify-true e q = rw (e, q) refl

  verify-failed :
      (o.is_contact_known s.world target).0 ≡ some true
      → is_some_and_equal connected target ≡ false
      → verify_target_contact_id o target connected s ≡ returned (verification_failed, asked)
  unfolding verify_target_contact_id judge
  verify-failed e q = rw (e, q) refl

module _ {W F : Type 0} (o : Outside W F) (peer : PeerId) (files : PeerFiles F)
    (contact : Option ContactId) where
  -- What follows a verification returns for every file whose lock is open, with its window as it is.
  abbrev pub Proceeds :
      LockedSendData ℕ F → (LockedSendData ℕ F → Scene W → Handled (Run W F)) → Type 0
  Proceeds d continue =
      (d' : LockedSendData ℕ F) (s : Scene W)
      → IsOpen d' contact
      → IsBounded d'.send_manager
      → Returns (continue d' s)

  pub when_verified-end :
      (d : LockedSendData ℕ F) (continue : LockedSendData ℕ F → Scene W → Handled (Run W F))
      (s : Scene W)
      → IsBounded d.send_manager
      → Proceeds d continue
      → end_of (when_verified o peer files d contact continue s)
        ≡ on_some (o.is_contact_known s.world d.pending_file.contact_id).0 waits (λ known. returns)
  unfolding after_verification on_some
  when_verified-end d continue s b h =
      let target = d.pending_file.contact_id in
      elim (Option-cases (o.is_contact_known s.world target).0) [
        | inl e ↦ rw (verify-none o target contact s e, e) refl
        | inr (known, e) ↦ elim (Bool-cases known) [
          | inl yes_known ↦ elim (Bool-cases (is_some_and_equal contact target)) [
            | inl q ↦
                rw (verify-true o target contact s (rw yes_known at e) q, e)
                  (end_of-Returns (continue d (asked o target contact s))
                    (h d (asked o target contact s) (inr (equal-some contact target q)) b))
            | inr q ↦ rw (verify-failed o target contact s (rw yes_known at e) q, e) refl
          ]
          | inr unknown ↦
              rw (verify-false o target contact s (rw unknown at e), e)
                (end_of-Returns (continue (unverified d) (asked o target contact s))
                  (h (unverified d) (asked o target contact s) (inl refl) b))
        ]
      ]

  pub start_sending-Returns :
      (d : LockedSendData ℕ F) (s : Scene W)
      → IsOpen d contact
      → IsBounded d.send_manager
      → Returns (start_sending o peer files contact d s)
  unfolding start_sending
  start_sending-Returns d s open_lock b =
      on_some-Holds {B = Handled (Run W F)} Returns (in_status prepared d.pending_file.status)
        (λ e. tt)
        (λ t e.
          send_chunks_loop_lem o peer contact
            (some (with_sending files (with_status d (in_progress sending t)))) s b)

  set_progress-IsBounded :
      (m : SendManager ℕ F) (offset : ℕ) → IsBounded m → IsBounded (set_progress o.files m offset)
  unfolding set_progress
  set_progress-IsBounded m offset b = record { order = b.order; room = b.room }

  -- The lock opens, so that the `expect` does not panic.
  pub continue_sending-Returns :
      (offset : ℕ) (d : LockedSendData ℕ F) (s : Scene W)
      → IsOpen d contact
      → IsBounded d.send_manager
      → Returns (continue_sending o peer files contact offset d s)
  unfolding continue_sending
  continue_sending-Returns offset d s open_lock b =
      on_some-Holds {B = Handled (Run W F)} Returns (in_status prepared d.pending_file.status)
        (λ e. tt)
        (λ t e.
          let d' = with_status d (in_progress sending (record t { progress_bytes = offset })) in
          let opens : unlock d' contact ≡ some (contents d') =
            (unlock_lem d' contact).1 open_lock in
          on_some-Holds {B = Handled (Run W F)} Returns (unlock d' contact) (λ u. cc (opens, u))
            (λ unlocked u.
              send_chunks_loop_lem o peer contact
                (some (
                  with_sending files
                    (record d' { send_manager = set_progress o.files d'.send_manager offset })))
                s (set_progress-IsBounded d'.send_manager offset b)))
