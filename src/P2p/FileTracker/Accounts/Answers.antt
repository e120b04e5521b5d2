-- ===== src/P2p/FileTracker/Accounts/Answers.antt =====
-- fyles_service/p2p/src/event_loop/filerequest/file_tracker.rs: the responses
-- without a verification and without a loop keep account of every file.
use fyles_release.Base.{
  nat_eq, ℕ, ◌+◌, ◌≡◌, refl, Bool, true, false, Option, none, some, on_some, on_some-Holds, arith,
}
use fyles_release.P2p.Types.{
  FylesId, PeerId, FileResponse, accept_new_transfer, reject_new_transfer, accept_continue_transfer,
  restart_continue_transfer, reject_continue_transfer, confirm_chunk, reject_chunk, confirm_abort,
  confirm_done, reject_done, acknowledge_protocol_violation, protocol_violation, internal_error,
}
use fyles_release.P2p.Transfer.SendData.{LockedSendData}
use fyles_release.Core.Domain.{sending, pending_sent}
use fyles_release.P2p.FileTracker.{
  Outside, Scene, PeerFiles, Run, Handled, returned, deadlocked, panicked, out_of_fuel, FileOutcome,
  tell, notify, file_sending, remote_violation, remote_internal_error,
}
use fyles_release.P2p.FileTracker
use fyles_release.P2p.FileTracker.Next.{complete_file}
use fyles_release.P2p.FileTracker.Reset.{raise_retry_count, reset_all_on_protocol_violation_for}
use fyles_release.P2p.FileTracker.Chunks.{with_sending}
use fyles_release.P2p.FileTracker.Responses.{
  in_status, without_sending, report_violation, finish_rejected, receive_reject_chunk,
  receive_confirm_abort, receive_violation, receive_internal_error,
}
use fyles_release.P2p.FileTracker.Accounts.{Continues, held, ended, BalancesHandled}
use fyles_release.P2p.FileTracker.Accounts.Next.{send_next-Balances}
use fyles_release.P2p.FileTracker.Accounts.Reset.{
  accounted-reset_and_stop, accounted-violation_for, reset_and_retry-Balances,
}
use fyles_release.P2p.FileTracker.Accounts.Responses.{
  Sound, exact, violation-Sound, completed-Sound,
}

-- `RejectChunk` is about the file of the slot, or there is none.
abbrev pub rejects_chunk_sent : {F : Type 0} → Option (LockedSendData ℕ F) → Bool
rejects_chunk_sent none = true
rejects_chunk_sent (some d) = on_some (in_status sending d.pending_file.status) false (λ t. true)

-- Any response but a `RejectChunk` for a file that is not `Sending`.
abbrev pub is_expected : {F : Type 0} → FileResponse → Option (PeerFiles F) → Bool
is_expected reject_chunk none = true
is_expected reject_chunk (some files) = rejects_chunk_sent files.sending
is_expected accept_new_transfer entry = true
is_expected reject_new_transfer entry = true
is_expected (accept_continue_transfer offset) entry = true
is_expected restart_continue_transfer entry = true
is_expected reject_continue_transfer entry = true
is_expected confirm_chunk entry = true
is_expected confirm_abort entry = true
is_expected confirm_done entry = true
is_expected reject_done entry = true
is_expected acknowledge_protocol_violation entry = true
is_expected protocol_violation entry = true
is_expected internal_error entry = true

unexpected :
    {F : Type 0} (d : LockedSendData ℕ F)
    → in_status sending d.pending_file.status ≡ none
    → rejects_chunk_sent (some d) ≡ true
    → ⊥
unfolding on_some
unexpected d u h = ground (arith, u, h)

pub weaken :
    {W F : Type 0} (id : FylesId) (P Q : Type 0) (before : ℕ) (handled : Handled (Run W F))
    → (Q → P)
    → BalancesHandled id P before handled
    → BalancesHandled id Q before handled
weaken id P Q before (returned run) w h = (h.0, λ q. h.1 (w q))
weaken id P Q before deadlocked w h = tt
weaken id P Q before panicked w h = tt
weaken id P Q before out_of_fuel w h = tt

module _ {W F : Type 0} (id : FylesId) (o : Outside W F) (peer : PeerId) where
  pub receive_reject_chunk-Sound :
      (entry : Option (PeerFiles F)) (s : Scene W)
      → BalancesHandled id
          (Continues o × (is_expected reject_chunk entry ≡ true))
          (held id entry + ended id s.log)
          (receive_reject_chunk o peer entry s)
  unfolding receive_reject_chunk report_violation finish_rejected
  receive_reject_chunk-Sound none s = (omega arith, λ k. omega arith)
  receive_reject_chunk-Sound (some files) s =
      let Fine : Handled (Run W F) → Type 0 =
        BalancesHandled id (Continues o × (is_expected reject_chunk (some files) ≡ true))
          (held id (some files) + ended id s.log) in
      let weaker = λ (run : Handled (Run W F)) (before : ℕ) (h : Sound id o peer before run).
        weaken id (Continues o) (Continues o × (is_expected reject_chunk (some files) ≡ true))
          before run (λ q. q.0) h in
      on_some-Holds Fine files.sending
        (λ e.
          weaker (returned (reset_all_on_protocol_violation_for o peer (some files) s))
            (held id (some files) + ended id s.log) (violation-Sound id o peer (some files) s))
        (λ d e.
          on_some-Holds Fine (in_status sending d.pending_file.status)
            (λ u.
              let lost = accounted-violation_for id o peer (some (without_sending files)) s in
              (omega (arith, lost), λ q. absurd (unexpected d u (rw e at q.1))))
            (λ t u.
              weaker (finish_rejected o peer files d s) (held id (some files) + ended id s.log)
                (rw e (completed-Sound id o peer (with_sending files d) d FileTracker.rejected s))))

  pub receive_confirm_abort-Sound :
      (entry : Option (PeerFiles F)) (s : Scene W)
      → Sound id o peer (held id entry + ended id s.log) (receive_confirm_abort o peer entry s)
  unfolding receive_confirm_abort
  receive_confirm_abort-Sound none s = (omega arith, λ k. omega arith)
  receive_confirm_abort-Sound (some files) s =
      on_some-Holds (Sound id o peer (held id (some files) + ended id s.log)) files.sending
        (λ e.
          let next = send_next-Balances id o peer files.pending s in
          rw e (omega (arith, next), λ k. omega (arith, next.1 k)))
        (λ d e.
          exact id o peer (held id (some files) + ended id s.log)
            (record { files = some files; scene = s }) refl)

  -- `ConfirmDone` and `RejectDone`.
  pub finished-Sound :
      (files : PeerFiles F) (outcome : FileOutcome) (s : Scene W)
      → Sound id o peer (held id (some files) + ended id s.log) (
          on_some files.sending
            (returned (reset_all_on_protocol_violation_for o peer (some files) s))
            (λ d.
              on_some
                (in_status pending_sent d.pending_file.status)
                (returned (reset_all_on_protocol_violation_for o peer (some files) s))
                (λ t.
                  returned
                    (complete_file o peer (without_sending files) d.pending_file.id outcome s))))
  finished-Sound files outcome s =
      let Fine : Handled (Run W F) → Type 0 =
        Sound id o peer (held id (some files) + ended id s.log) in
      on_some-Holds Fine files.sending (λ e. violation-Sound id o peer (some files) s)
        (λ d e.
          on_some-Holds Fine (in_status pending_sent d.pending_file.status)
            (λ u. violation-Sound id o peer (some files) s)
            (λ t u. rw e (completed-Sound id o peer (with_sending files d) d outcome s)))

  pub receive_violation-Sound :
      (entry : Option (PeerFiles F)) (s : Scene W)
      → Sound id o peer (held id entry + ended id s.log) (receive_violation o peer entry s)
  unfolding receive_violation
  receive_violation-Sound none s = (omega arith, λ k. omega arith)
  receive_violation-Sound (some files) s =
      on_some-Holds (Sound id o peer (held id (some files) + ended id s.log)) files.sending
        (λ e.
          exact id o peer (held id (some files) + ended id s.log)
            (record { files = some files; scene = s }) refl)
        (λ d e.
          let retried =
            reset_and_retry-Balances id o peer (without_sending files) (raise_retry_count d)
              remote_violation s refl in
          rw e (omega (arith, retried), λ k. omega (arith, retried.1 k)))

  pub receive_internal_error-Sound :
      (entry : Option (PeerFiles F)) (s : Scene W)
      → Sound id o peer (held id entry + ended id s.log) (receive_internal_error o peer entry s)
  unfolding receive_internal_error
  receive_internal_error-Sound none s = (omega arith, λ k. omega arith)
  receive_internal_error-Sound (some files) s =
      on_some-Holds (Sound id o peer (held id (some files) + ended id s.log)) files.sending
        (λ e.
          exact id o peer (held id (some files) + ended id s.log)
            (record { files = some files; scene = s }) refl)
        (λ d e.
          let stopped =
            accounted-reset_and_stop id (without_sending files) (raise_retry_count d)
              remote_internal_error s in
          rw e (omega (arith, stopped), λ k. omega (arith, stopped)))
