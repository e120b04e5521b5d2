-- ===== src/P2p/FileTracker/Phases/Reset.antt =====
-- fyles_service/p2p/src/event_loop/filerequest/file_tracker.rs: the resets leave the slot free.
use fyles_release.Base.{
  ℕ, ◌≡◌, refl, true, Bool-cases, inl, inr, Option, none, some, [], ◌∷◌, on_some-Holds, ltb, arith,
}
use fyles_release.P2p.Types.{ContactId, PeerId}
use fyles_release.P2p.Transfer.SendData.{LockedSendData, get_file_size_bytes}
use fyles_release.Core.Domain.{SendStatus}
use fyles_release.P2p.FileTracker.{
  FileOutcome, notify, tell, ResetReason, Outside, Scene, PeerFiles, Run,
}
use fyles_release.P2p.FileTracker
use fyles_release.P2p.FileTracker.Next.{outcome_action, complete_file}
use fyles_release.P2p.FileTracker.Reset.{
  compute_reset_status, raise_sending, sending_of, max_allowed_failures, reset_and_stop,
  reset_all_with_occupied, reset_all, reset_and_retry, reset_all_on_internal_error_for,
  reset_all_on_protocol_violation_for,
}
use fyles_release.P2p.FileTracker.Cancel.{can_wait}
use fyles_release.P2p.FileTracker.Phases.{
  Kind, leave, Steps, here, next, Steps-trans, slot_phase, entry_phase, delivered, AllWait,
  AllWait-append, IsTracked, Refines,
}
use fyles_release.P2p.FileTracker.Phases.Next.{send_next-FromIdle}

can_wait-compute_reset_status : (s : SendStatus) → can_wait (compute_reset_status s) ≡ true
unfolding compute_reset_status
can_wait-compute_reset_status s = ground arith

-- Raising the retry count changes neither the phase nor what is tracked.
raise_sending-same :
    {F : Type 0} (entry : Option (PeerFiles F))
    → (entry_phase (raise_sending entry) ≡ entry_phase entry)
      × (IsTracked entry → IsTracked (raise_sending entry))
raise_sending-same {F} none = (refl, λ k. k)
raise_sending-same {F} (some files) =
    on_some-Holds {B = Option (PeerFiles F)}
      (λ found.
        (entry_phase found ≡ slot_phase files.sending) × (IsTracked (some files) → IsTracked found))
      files.sending (λ e. (refl, λ k. k)) (λ d e. rw e (refl, λ k. k))

module _ {W F : Type 0} where
  -- The run of a slot that was taken, from the phase of the file in it.
  abbrev pub Frees : Kind → PeerFiles F → LockedSendData ℕ F → Scene W → Run W F → Type 0
  Frees k files d s run =
      Steps k (slot_phase (some d)) (delivered s.log) (entry_phase run.files)
        (delivered run.scene.log)
      × (AllWait files.pending → IsTracked run.files)

  pub reset_and_stop-Frees :
      {k : Kind} (files : PeerFiles F) (d : LockedSendData ℕ F) (reason : ResetReason) (s : Scene W)
      → files.sending ≡ none
      → Frees k files d s (reset_and_stop files d reason s)
  unfolding reset_and_stop
  reset_and_stop-Frees files d reason s empty = rw empty (
    next here (leave (slot_phase (some d)) (delivered s.log)),
    λ k. (
      AllWait-append files.pending
          (record d.pending_file { status = compute_reset_status d.pending_file.status } ∷ []) k
          (can_wait-compute_reset_status d.pending_file.status, tt),
      tt,
    ),
  )

  pub reset_all-Refines :
      {k : Kind} (entry : Option (PeerFiles F)) (s : Scene W)
      → Refines k entry s (reset_all entry s).1
  unfolding reset_all reset_all_with_occupied
  reset_all-Refines {k} none s = (here, λ k. k)
  reset_all-Refines {k} (some files) s =
      on_some-Holds {B = Option ContactId × Run W F} (λ res. Refines k (some files) s res.1)
        files.sending (λ e. (here, λ k. k))
        (λ d e.
          let (steps, tracked) =
            reset_and_stop-Frees (record files { sending = none }) d FileTracker.disconnected s
              refl in
          (rw e steps, λ k. tracked k.0))

  raised-Refines :
      {k : Kind} (entry : Option (PeerFiles F)) (s : Scene W)
      → Refines k entry s (reset_all (raise_sending entry) s).1
  raised-Refines entry s =
      let (steps, tracked) = reset_all-Refines (raise_sending entry) s in
      let (same, keeps) = raise_sending-same entry in (rw (← same) steps, λ k. tracked (keeps k))

module _ {W F : Type 0} (o : Outside W F) (peer : PeerId) where
  pub violation_for-Refines :
      {k : Kind} (entry : Option (PeerFiles F)) (s : Scene W)
      → Refines k entry s (reset_all_on_protocol_violation_for o peer entry s)
  unfolding reset_all_on_protocol_violation_for
  violation_for-Refines entry s = raised-Refines entry s

  pub internal_error_for-Refines :
      {k : Kind} (entry : Option (PeerFiles F)) (s : Scene W)
      → Refines k entry s (reset_all_on_internal_error_for o peer entry s)
  unfolding reset_all_on_internal_error_for
  internal_error_for-Refines {k} entry s =
      on_some-Holds {B = Run W F} (Refines k entry s) (sending_of entry)
        (λ e. raised-Refines entry s) (λ d e. raised-Refines entry s)

  -- A file that is completed without being sent.
  pub completed-Frees :
      {k : Kind} (files : PeerFiles F) (d : LockedSendData ℕ F) (outcome : FileOutcome)
      (s : Scene W)
      → files.sending ≡ none
      → delivered (notify (outcome_action outcome d.pending_file.id) ∷ s.log) ≡ delivered s.log
      → Frees k files d s (complete_file o peer files d.pending_file.id outcome s)
  unfolding complete_file
  completed-Frees {k} files d outcome s empty unsent =
      let (steps, tracked) =
        send_next-FromIdle o peer {k = k} files.pending
          (tell (notify (outcome_action outcome d.pending_file.id)) s) in
      rw empty (
        Steps-trans (next here (leave (slot_phase (some d)) (delivered s.log)))
            (rw unsent at steps),
        tracked,
      )

  pub reset_and_retry-Frees :
      {k : Kind} (files : PeerFiles F) (d : LockedSendData ℕ F) (reason : ResetReason) (s : Scene W)
      → files.sending ≡ none
      → Frees k files d s (reset_and_retry o peer files d reason s)
  unfolding reset_and_retry
  reset_and_retry-Frees files d reason s empty =
      elim (Bool-cases
        (ltb (max_allowed_failures (get_file_size_bytes d)) d.pending_file.retry_count)) [
          | inl e ↦ rw e (completed-Frees files d FileTracker.failed s empty refl)
          | inr e ↦ rw e (reset_and_stop-Frees files d reason s empty)
        ]
