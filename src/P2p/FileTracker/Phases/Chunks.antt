-- ===== src/P2p/FileTracker/Phases/Chunks.antt =====
-- fyles_service/p2p/src/event_loop/filerequest/file_tracker.rs: `send_chunks_loop` finishes the file
-- that it sends, or leaves the slot free.
use fyles_release.Base.{
  ℕ, zero, suc, ◌≡◌, refl, true, Option, none, some, List, [], ◌∷◌, on_some-Holds, nat_eq, arith,
}
use fyles_release.P2p.Types.{FylesId, ContactId, PeerId, abort_transfer}
use fyles_release.P2p.Types
use fyles_release.P2p.Transfer.SendManager.{
  SendManager, SendRes, not_ready, sent, done, interrupt, send_next_chunk,
}
use fyles_release.P2p.Transfer.SendData.{LockedSendData, unlock}
use fyles_release.Core.Domain.{
  TransferData, prepared, sending, interrupted, pending_sent, SendStatus, pending, in_progress,
  rejected, failed, unknown, transfer_data,
}
use fyles_release.Core.Domain
use fyles_release.P2p.FileTracker.{
  Outside, Scene, PeerFiles, Run, Handled, io_error, send_request, send_and_forget,
}
use fyles_release.P2p.FileTracker.Reset.{reset_all}
use fyles_release.P2p.FileTracker.Chunks.{
  chunk_sender, after_chunk, finish_status, with_sending, with_manager, finish_sending,
  give_up_sending, interrupt_loop, follow_chunk, send_chunk_round, send_chunks_loop,
}
use fyles_release.P2p.FileTracker.Phases.{
  Kind, can_finish, finish, leave, Steps, here, next, phase_of, slot_phase, delivered, is_active,
  precede, AllWait-append, Refines, RefinesHandled,
}
use fyles_release.P2p.FileTracker.Phases.Reset.{reset_all-Refines, completed-Frees}

finish_status-step :
    {k : Kind} (id : FylesId) (l : List FylesId) (status : SendStatus)
    → can_finish k ≡ true
    → Steps k (phase_of id status) l (phase_of id (finish_status status)) l
finish_status-step id l (in_progress sending t) can = next here (finish id l can)
finish_status-step id l (in_progress prepared t) can = here
finish_status-step id l (in_progress interrupted t) can = here
finish_status-step id l (in_progress pending_sent t) can = here
finish_status-step id l pending can = here
finish_status-step id l Domain.sent can = here
finish_status-step id l rejected can = here
finish_status-step id l failed can = here
finish_status-step id l (unknown text) can = here

is_active-finish_status :
    (status : SendStatus) → is_active status ≡ true → is_active (finish_status status) ≡ true
is_active-finish_status status h = ground (arith, h)

module _ (k : Kind) {W F : Type 0} (can : can_finish k ≡ true) (o : Outside W F)
    (peer : PeerId) where
  finish_sending-Refines :
      (files : PeerFiles F) (d : LockedSendData ℕ F) (s : Scene W)
      → Refines k (some (with_sending files d)) s (finish_sending o peer files d s)
  unfolding finish_sending reset_all
  finish_sending-Refines files d s =
      let asked =
        send_request o peer (some d.pending_file.contact_id)
          (Types.FileRequest.done d.send_manager.transfer_id) s in
      let Fine : Run W F → Type 0 = Refines k (some (with_sending files d)) s in
      on_some-Holds Fine asked.0
        (λ e.
          on_some-Holds Fine (transfer_data d.pending_file.status) (λ q. (here, λ k. k))
            (λ t q. reset_all-Refines (some (with_sending files d)) asked.1))
        (λ request e. (
          finish_status-step d.pending_file.id (delivered s.log) d.pending_file.status can,
          λ k. (k.0, is_active-finish_status d.pending_file.status k.1),
        ))

  interrupt_loop-Refines :
      (files : PeerFiles F) (d : LockedSendData ℕ F) (s : Scene W)
      → Refines k (some (with_sending files d)) s (interrupt_loop o peer files d s)
  unfolding interrupt_loop
  interrupt_loop-Refines files d s =
      on_some-Holds {B = Run W F} (Refines k (some (with_sending files d)) s)
        (transfer_data d.pending_file.status) (λ e. (here, λ k. k))
        (λ t e. (
          next here (leave (slot_phase (some d)) (delivered s.log)),
          λ k. (
            AllWait-append files.pending
                (record d.pending_file { status = in_progress interrupted t } ∷ []) k.0 (refl, tt),
            tt,
          ),
        ))

  give_up_sending-Refines :
      (files : PeerFiles F) (d : LockedSendData ℕ F) (e : ℕ) (s : Scene W)
      → Refines k (some (with_sending files d)) s (give_up_sending o peer files d e s)
  unfolding give_up_sending
  give_up_sending-Refines files d e s =
      let s' =
        send_and_forget o peer (some d.pending_file.contact_id)
          (abort_transfer (some d.send_manager.transfer_id)) s in
      let (steps, tracked) =
        completed-Frees o peer (record files { sending = none }) d (io_error e) s' refl refl in
      (steps, λ k. tracked k.0)

  follow_chunk-Refines :
      (next_round : Option (PeerFiles F) → Scene W → Handled (Run W F))
      → ((entry : Option (PeerFiles F)) (s : Scene W)
          → RefinesHandled k entry s (next_round entry s))
      → (files : PeerFiles F) (d : LockedSendData ℕ F) (m : SendManager ℕ F) (res : SendRes ℕ)
        (s : Scene W)
      → RefinesHandled k
          (some (with_sending files d))
          s
          (follow_chunk o peer next_round files d m res s)
  unfolding follow_chunk
  follow_chunk-Refines next_round ih files d m not_ready s = (here, λ k. k)
  follow_chunk-Refines next_round ih files d m (sent request) s =
      precede (some (with_sending files d)) (some (with_sending files (with_manager d m))) s
        (after_chunk o peer d s) here (λ k. k)
        (next_round (some (with_sending files (with_manager d m))) (after_chunk o peer d s))
        (ih (some (with_sending files (with_manager d m))) (after_chunk o peer d s))
  follow_chunk-Refines next_round ih files d m done s =
      finish_sending-Refines files (with_manager d m) s
  follow_chunk-Refines next_round ih files d m (SendRes.io_error e) s =
      give_up_sending-Refines files (with_manager d m) e s
  follow_chunk-Refines next_round ih files d m interrupt s =
      interrupt_loop-Refines files (with_manager d m) (after_chunk o peer d s)

  pub send_chunks_loop-Refines :
      (fuel : ℕ) (contact : Option ContactId) (entry : Option (PeerFiles F)) (s : Scene W)
      → RefinesHandled k entry s (send_chunks_loop o peer fuel contact entry s)
  unfolding send_chunks_loop send_chunk_round
  send_chunks_loop-Refines zero contact entry s = tt
  send_chunks_loop-Refines (suc fuel) contact none s = (here, λ k. k)
  send_chunks_loop-Refines (suc fuel) contact (some files) s =
      let Fine : Handled (Run W F) → Type 0 = RefinesHandled k (some files) s in
      on_some-Holds Fine files.sending (λ e. (here, λ k. k))
        (λ d e.
          on_some-Holds Fine (unlock d contact) (λ u. (here, λ k. k))
            (λ unlocked u.
              let (res, m) =
                send_next_chunk o.files (chunk_sender o peer d.pending_file.contact_id s)
                  d.send_manager in
              rw e (
                follow_chunk-Refines (send_chunks_loop o peer fuel contact)
                  (send_chunks_loop-Refines fuel contact) (with_sending files d) d m res s)))
