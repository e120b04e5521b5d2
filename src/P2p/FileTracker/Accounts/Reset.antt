-- ===== src/P2p/FileTracker/Accounts/Reset.antt =====
-- fyles_service/p2p/src/event_loop/filerequest/file_tracker.rs: the resets keep account of every file.
use fyles_release.Base.{
  ◌∙◌, on_some-Holds, ap, ℕ, ◌+◌, ◌≡◌, Bool-cases, Option, none, some, [], ◌∷◌, arith, refl, inl,
  inr, ltb,
}
use fyles_release.P2p.Types.{FylesId, ContactId, PeerId}
use fyles_release.P2p.Transfer.SendData.{LockedSendData, get_file_size_bytes}
use fyles_release.P2p.FileTracker.{ResetReason, Outside, Scene, PeerFiles, Run}
use fyles_release.P2p.FileTracker
use fyles_release.P2p.FileTracker.Reset.{
  compute_reset_status, raise_sending, sending_of, max_allowed_failures, reset_and_stop,
  reset_all_with_occupied, reset_all, reset_and_retry, reset_all_on_internal_error_for,
  reset_all_on_protocol_violation_for,
}
use fyles_release.P2p.FileTracker.Accounts.{
  Continues, one, in_slot, waiting, waiting-append, held, ended, accounted, Balances,
}
use fyles_release.P2p.FileTracker.Accounts.Next.{complete_file-Balances}

held-raise_sending :
    {F : Type 0} (id : FylesId) (entry : Option (PeerFiles F))
    → held id (raise_sending entry) ≡ held id entry
held-raise_sending id none = refl
held-raise_sending id (some files) =
    on_some-Holds (λ found. held id found ≡ held id (some files)) files.sending (λ e. refl)
      (λ d e. omega (arith, ap (in_slot id) e))

module _ {W F : Type 0} (id : FylesId) where
  pub accounted-reset_and_stop :
      (files : PeerFiles F) (d : LockedSendData ℕ F) (reason : ResetReason) (s : Scene W)
      → accounted id (reset_and_stop files d reason s)
        ≡ held id (some files) + one id d.pending_file.id + ended id s.log
  unfolding reset_and_stop
  accounted-reset_and_stop files d reason s =
      let p = record d.pending_file { status = compute_reset_status d.pending_file.status } in
      omega (arith, waiting-append id files.pending (p ∷ []))

  pub accounted-reset_all :
      (entry : Option (PeerFiles F)) (s : Scene W)
      → accounted id (reset_all entry s).1 ≡ held id entry + ended id s.log
  unfolding reset_all reset_all_with_occupied
  accounted-reset_all none s = refl
  accounted-reset_all (some files) s =
      on_some-Holds {B = Option ContactId × Run W F}
        (λ res. accounted id res.1 ≡ held id (some files) + ended id s.log) files.sending
        (λ e. refl)
        (λ d e. omega (
          arith,
          accounted-reset_and_stop (record files { sending = none }) d FileTracker.disconnected s,
          ap (in_slot id) e,
        ))

  module _ (o : Outside W F) (peer : PeerId) where
    pub accounted-violation_for :
        (entry : Option (PeerFiles F)) (s : Scene W)
        → accounted id (reset_all_on_protocol_violation_for o peer entry s)
          ≡ held id entry + ended id s.log
    unfolding reset_all_on_protocol_violation_for
    accounted-violation_for entry s =
        omega (arith, accounted-reset_all (raise_sending entry) s, held-raise_sending id entry)

    pub accounted-internal_error_for :
        (entry : Option (PeerFiles F)) (s : Scene W)
        → accounted id (reset_all_on_internal_error_for o peer entry s)
          ≡ held id entry + ended id s.log
    unfolding reset_all_on_internal_error_for
    accounted-internal_error_for entry s =
        let all =
          accounted-reset_all (raise_sending entry) s
          ∙ ap (λ n. n + ended id s.log) (held-raise_sending id entry) in
        on_some-Holds {B = Run W F} (λ run. accounted id run ≡ held id entry + ended id s.log)
          (sending_of entry) (λ e. all) (λ d e. all)

    pub reset_and_retry-Balances :
        (files : PeerFiles F) (d : LockedSendData ℕ F) (reason : ResetReason) (s : Scene W)
        → files.sending ≡ none
        → Balances
            (Continues o)
            (one id d.pending_file.id + waiting id files.pending + ended id s.log)
            (accounted id (reset_and_retry o peer files d reason s))
    unfolding reset_and_retry
    reset_and_retry-Balances files d reason s empty =
        let stopped = accounted-reset_and_stop files d reason s in
        let completed =
          complete_file-Balances id o peer files d.pending_file.id FileTracker.failed s empty in
        let bare : in_slot id files.sending ≡ 0 = rw empty refl in
        elim (Bool-cases
          (ltb (max_allowed_failures (get_file_size_bytes d)) d.pending_file.retry_count)) [
            | inl e ↦ rw e completed
            | inr e ↦ rw e (omega (arith, stopped, bare), λ k. omega (arith, stopped, bare))
          ]
