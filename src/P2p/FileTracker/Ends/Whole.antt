-- ===== src/P2p/FileTracker/Ends/Whole.antt =====
-- fyles_service/p2p/src/event_loop/filerequest/file_tracker.rs: how `receive_response` ends, for every
-- response.
use fyles_release.Base.{
  ℕ, Bool, ◌+◌, ◌<◌, ◌∙◌, ap, ◌≡◌, refl, inl, inr, Option, none, some, Option-cases, on_some,
  on_some-Holds, nat_eq,
}
use fyles_release.P2p.Types.{
  ContactId, PeerId, FileResponse, accept_new_transfer, reject_new_transfer,
  accept_continue_transfer, restart_continue_transfer, reject_continue_transfer, confirm_chunk,
  reject_chunk, confirm_abort, confirm_done, reject_done, acknowledge_protocol_violation,
  protocol_violation, internal_error, u64_mod,
}
use fyles_release.Base.HashMap.{lookup}
use fyles_release.Base.Totals.{total}
use fyles_release.P2p.Transfer.SendManager.{SendManager, mark_done}
use fyles_release.P2p.Transfer.SendManager.Progress.{Tracks, mark_done_lem, mark_done_unknown}
use fyles_release.P2p.Transfer.SendManager.Bounds.{IsBounded, mark_done-IsBounded}
use fyles_release.P2p.Transfer.SendData.{LockedSendData, unlock}
use fyles_release.Core.Domain.{SendStatus, sending, pending_sent, in_progress}
use fyles_release.P2p.FileTracker.{
  tell, notify, file_sending, Outside, Scene, PeerFiles, Run, Handled,
}
use fyles_release.P2p.FileTracker.Chunks.{with_status, with_sending}
use fyles_release.P2p.FileTracker.Loop.{IsBoundedEntry, send_chunks_loop_lem}
use fyles_release.P2p.FileTracker.Responses.{
  in_status, report_violation, start_sending, receive_accept_new, finish_rejected,
  receive_reject_new, continue_sending, receive_accept_continue, acknowledge_chunk,
  receive_confirm_chunk, receive_reject_chunk, receive_confirm_abort, receive_confirm_done,
  receive_reject_done, receive_violation, receive_internal_error, receive_reject_continue,
  receive_response,
}
use fyles_release.P2p.FileTracker.Ends.{
  End, returns, waits, panics, end_of, end_of-Returns, end_verifying, end_confirming, expected_end,
  when_verified-end, start_sending-Returns, continue_sending-Returns,
}

-- The window of the file in the slot agrees with the chunks that are acknowledged, and its bytes fit in
-- a `u64`.
abbrev pub IsAckedSlot :
    {F : Type 0} → (ℕ → ℕ) → ℕ → (ℕ → Bool) → Option (LockedSendData ℕ F) → Type 0
IsAckedSlot sizes start acked none = Unit
IsAckedSlot sizes start acked (some d) =
    Tracks sizes start acked d.send_manager
    × (start + total sizes d.send_manager.next_slot < u64_mod)

abbrev pub IsAckedEntry : {F : Type 0} → (ℕ → ℕ) → ℕ → (ℕ → Bool) → Option (PeerFiles F) → Type 0
IsAckedEntry sizes start acked none = Unit
IsAckedEntry sizes start acked (some files) = IsAckedSlot sizes start acked files.sending

-- An acknowledgement panics exactly if its id is not registered.
mark_done-end :
    {F : Type 0} (sizes : ℕ → ℕ) (start : ℕ) (acked : ℕ → Bool) (m : SendManager ℕ F) (request : ℕ)
    → Tracks sizes start acked m
    → start + total sizes m.next_slot < u64_mod
    → on_some {B = End} (mark_done m request) panics (λ m'. returns)
      ≡ on_some (lookup request m.chunk_to_index) panics (λ idx. returns)
unfolding on_some
mark_done-end sizes start acked m request k fits =
    elim (Option-cases (lookup request m.chunk_to_index)) [
      | inl u ↦ rw (mark_done_unknown sizes start m request u, u) refl
      | inr (idx, u) ↦
          let (m', eq, marked, next, size) =
            mark_done_lem sizes start acked m k request idx u fits in
          rw (eq, u) refl
    ]

-- The same below the test of the status.
acknowledged_in :
    {F : Type 0} (status : SendStatus) (m : SendManager ℕ F) (request : ℕ)
    → on_some {B = End} (mark_done m request) panics (λ m'. returns)
      ≡ on_some (lookup request m.chunk_to_index) panics (λ idx. returns)
    → on_some {B = End}
        (in_status sending status)
        returns
        (λ t. on_some (mark_done m request) panics (λ m'. returns))
      ≡ on_some
          (in_status sending status)
          returns
          (λ t. on_some (lookup request m.chunk_to_index) panics (λ idx. returns))
acknowledged_in status m request q =
    ap (λ (x : End). on_some (in_status sending status) returns (λ t. x)) q

module _ {W F : Type 0} (o : Outside W F) (peer : PeerId) (s : Scene W) where
  receive_accept_new-end :
      (contact : Option ContactId) (entry : Option (PeerFiles F))
      → IsBoundedEntry entry
      → end_of (receive_accept_new o peer contact entry s) ≡ end_verifying o returns entry s
  unfolding receive_accept_new report_violation on_some
  receive_accept_new-end contact none b = refl
  receive_accept_new-end contact (some files) b = elim (Option-cases files.sending) [
    | inl e ↦ rw e refl
    | inr (d, e) ↦ rw e (
        when_verified-end o peer (with_sending files d) contact d
          (start_sending o peer (with_sending files d) contact) s (rw e at b)
          (start_sending-Returns o peer (with_sending files d) contact))
  ]

  receive_accept_continue-end :
      (offset : ℕ) (contact : Option ContactId) (entry : Option (PeerFiles F))
      → IsBoundedEntry entry
      → end_of (receive_accept_continue o peer offset contact entry s)
        ≡ end_verifying o returns entry s
  unfolding receive_accept_continue report_violation on_some
  receive_accept_continue-end offset contact none b = refl
  receive_accept_continue-end offset contact (some files) b = elim (Option-cases files.sending) [
    | inl e ↦ rw e refl
    | inr (d, e) ↦ rw e (
        when_verified-end o peer (with_sending files d) contact d
          (continue_sending o peer (with_sending files d) contact offset) s (rw e at b)
          (continue_sending-Returns o peer (with_sending files d) contact offset))
  ]

  receive_reject_new-end :
      (contact : Option ContactId) (entry : Option (PeerFiles F))
      → IsBoundedEntry entry
      → end_of (receive_reject_new o peer contact entry s) ≡ end_verifying o returns entry s
  unfolding receive_reject_new report_violation finish_rejected on_some
  receive_reject_new-end contact none b = refl
  receive_reject_new-end contact (some files) b = elim (Option-cases files.sending) [
    | inl e ↦ rw e refl
    | inr (d, e) ↦ rw e (
        when_verified-end o peer (with_sending files d) contact d
          (finish_rejected o peer (with_sending files d)) s (rw e at b) (λ d' s' l b'. tt))
  ]

  receive_reject_continue-end :
      (contact : Option ContactId) (entry : Option (PeerFiles F))
      → IsBoundedEntry entry
      → end_of (receive_reject_continue o peer contact entry s) ≡ end_verifying o waits entry s
  unfolding receive_reject_continue finish_rejected on_some
  receive_reject_continue-end contact none b = refl
  receive_reject_continue-end contact (some files) b = elim (Option-cases files.sending) [
    | inl e ↦ rw e refl
    | inr (d, e) ↦ rw e (
        when_verified-end o peer (with_sending files d) contact d
          (finish_rejected o peer (with_sending files d)) s (rw e at b) (λ d' s' l b'. tt))
  ]

  acknowledge_chunk-end :
      (files : PeerFiles F) (d : LockedSendData ℕ F) (contact : Option ContactId) (request : ℕ)
      → IsBounded d.send_manager
      → end_of (acknowledge_chunk o peer files d contact request s)
        ≡ on_some
            (in_status sending d.pending_file.status)
            returns
            (λ t. on_some (mark_done d.send_manager request) panics (λ m. returns))
  unfolding acknowledge_chunk on_some
  acknowledge_chunk-end files d contact request b =
      elim (Option-cases (in_status sending d.pending_file.status)) [
        | inl e ↦ rw e refl
        | inr (t, e) ↦ elim (Option-cases (mark_done d.send_manager request)) [
          | inl u ↦ rw (e, u) refl
          | inr (m, u) ↦
              let status = in_progress sending (record t { progress_bytes = m.progress_bytes }) in
              let d' = record (with_status d status) { send_manager = m } in
              rw (e, u)
                (end_of-Returns _ (
                  send_chunks_loop_lem o peer contact (some (with_sending files d'))
                    (tell (notify (file_sending d.pending_file.id status)) s)
                    (mark_done-IsBounded d.send_manager m request u b)))
        ]
      ]

  receive_confirm_chunk-end :
      (sizes : ℕ → ℕ) (start : ℕ) (acked : ℕ → Bool) (request : Option ℕ)
      (contact : Option ContactId) (entry : Option (PeerFiles F))
      → IsBoundedEntry entry
      → IsAckedEntry sizes start acked entry
      → end_of (receive_confirm_chunk o peer request contact entry s)
        ≡ end_confirming o contact request entry
  unfolding receive_confirm_chunk report_violation on_some
  receive_confirm_chunk-end sizes start acked request contact none b k = refl
  receive_confirm_chunk-end sizes start acked none contact (some files) b k = refl
  receive_confirm_chunk-end sizes start acked (some request) contact (some files) b k =
      elim (Option-cases files.sending) [
        | inl e ↦ rw e refl
        | inr (d, e) ↦ elim (Option-cases (unlock d contact)) [
          | inl u ↦ rw (e, u) refl
          | inr (unlocked, u) ↦
              let slot = rw e at k in
              rw (e, u)
                (acknowledge_chunk-end (with_sending files d) d contact request (rw e at b)
                  ∙ acknowledged_in d.pending_file.status d.send_manager request
                      (mark_done-end sizes start acked d.send_manager request slot.0 slot.1))
        ]
      ]

  receive_reject_chunk-end :
      (entry : Option (PeerFiles F)) → end_of (receive_reject_chunk o peer entry s) ≡ returns
  unfolding receive_reject_chunk report_violation finish_rejected
  receive_reject_chunk-end none = refl
  receive_reject_chunk-end (some files) =
      on_some-Holds {B = Handled (Run W F)} (λ h. end_of h ≡ returns) files.sending (λ e. refl)
        (λ d e.
          on_some-Holds {B = Handled (Run W F)} (λ h. end_of h ≡ returns)
            (in_status sending d.pending_file.status) (λ u. refl) (λ t u. refl))

  receive_done-end :
      (entry : Option (PeerFiles F))
      → (end_of (receive_confirm_done o peer entry s) ≡ returns)
        × (end_of (receive_reject_done o peer entry s) ≡ returns)
  unfolding receive_confirm_done receive_reject_done report_violation finish_rejected
  receive_done-end none = (refl, refl)
  receive_done-end (some files) = (
    on_some-Holds {B = Handled (Run W F)} (λ h. end_of h ≡ returns) files.sending (λ e. refl)
        (λ d e.
          on_some-Holds {B = Handled (Run W F)} (λ h. end_of h ≡ returns)
            (in_status pending_sent d.pending_file.status) (λ u. refl) (λ t u. refl)),
    on_some-Holds {B = Handled (Run W F)} (λ h. end_of h ≡ returns) files.sending (λ e. refl)
        (λ d e.
          on_some-Holds {B = Handled (Run W F)} (λ h. end_of h ≡ returns)
            (in_status pending_sent d.pending_file.status) (λ u. refl) (λ t u. refl)),
  )

  -- The responses that end without a verification and without a loop.
  receive_other-end :
      (entry : Option (PeerFiles F))
      → (end_of (receive_confirm_abort o peer entry s) ≡ returns)
        × (end_of (receive_violation o peer entry s) ≡ returns)
        × (end_of (receive_internal_error o peer entry s) ≡ returns)
  unfolding receive_confirm_abort receive_violation receive_internal_error
  receive_other-end none = (refl, refl, refl)
  receive_other-end (some files) = (
    on_some-Holds {B = Handled (Run W F)} (λ h. end_of h ≡ returns) files.sending (λ e. refl)
        (λ d e. refl),
    on_some-Holds {B = Handled (Run W F)} (λ h. end_of h ≡ returns) files.sending (λ e. refl)
        (λ d e. refl),
    on_some-Holds {B = Handled (Run W F)} (λ h. end_of h ≡ returns) files.sending (λ e. refl)
        (λ d e. refl),
  )

module _ {W F : Type 0} (o : Outside W F) (peer : PeerId) where
  -- Whether a response returns, waits for ever for a lock that it holds, or panics, for an entry of
  -- the peer whose window of chunks in flight is within its bound, agrees with the acknowledged
  -- chunks and holds bytes that fit a u64: it waits if the contact of the file must be looked up
  -- and that fails, or if a RejectContinueTransfer finds no file in the slot; it panics if a
  -- ConfirmChunk by a contact that opens the lock of a file in status Sending names a request under
  -- which no chunk in flight is registered; in all other cases it returns, and the loop over the
  -- chunks ends.
  pub end_of-receive_response :
      (sizes : ℕ → ℕ) (start : ℕ) (acked : ℕ → Bool) (contact : Option ContactId)
      (request : Option ℕ) (response : FileResponse) (entry : Option (PeerFiles F)) (s : Scene W)
      → IsBoundedEntry entry
      → IsAckedEntry sizes start acked entry
      → end_of (receive_response o peer contact request response entry s)
        ≡ expected_end o contact request response entry s
  unfolding receive_response
  end_of-receive_response sizes start acked contact request accept_new_transfer entry s b k =
      receive_accept_new-end o peer s contact entry b
  end_of-receive_response sizes start acked contact request restart_continue_transfer entry s b k =
      receive_accept_new-end o peer s contact entry b
  end_of-receive_response sizes start acked contact request reject_new_transfer entry s b k =
      receive_reject_new-end o peer s contact entry b
  end_of-receive_response sizes start acked contact request (accept_continue_transfer offset) entry
        s b k =
      receive_accept_continue-end o peer s offset contact entry b
  end_of-receive_response sizes start acked contact request reject_continue_transfer entry s b k =
      receive_reject_continue-end o peer s contact entry b
  end_of-receive_response sizes start acked contact request confirm_chunk entry s b k =
      receive_confirm_chunk-end o peer s sizes start acked request contact entry b k
  end_of-receive_response sizes start acked contact request reject_chunk entry s b k =
      receive_reject_chunk-end o peer s entry
  end_of-receive_response sizes start acked contact request confirm_abort entry s b k =
      (receive_other-end o peer s entry).0
  end_of-receive_response sizes start acked contact request confirm_done entry s b k =
      (receive_done-end o peer s entry).0
  end_of-receive_response sizes start acked contact request reject_done entry s b k =
      (receive_done-end o peer s entry).1
  end_of-receive_response sizes start acked contact request acknowledge_protocol_violation entry s b
        k =
      refl
  end_of-receive_response sizes start acked contact request protocol_violation entry s b k =
      (receive_other-end o peer s entry).1
  end_of-receive_response sizes start acked contact request internal_error entry s b k =
      (receive_other-end o peer s entry).2
