-- ===== src/P2p/FileTracker/Accounts/Chunks.antt =====
-- fyles_service/p2p/src/event_loop/filerequest/file_tracker.rs: `send_chunks_loop` keeps account of
-- every file.
use fyles_release.Base.{
  nat_eq, on_some, on_some-Holds, ℕ, zero, suc, Option-cases, inl, inr, ◌+◌, ◌≡◌, Option, none,
  some, [], ◌∷◌, arith, refl,
}
use fyles_release.P2p.Types.{abort_transfer, FylesId, ContactId, PeerId}
use fyles_release.P2p.Types
use fyles_release.P2p.Transfer.SendManager.{
  SendManager, SendRes, not_ready, sent, done, interrupt, send_next_chunk,
}
use fyles_release.P2p.Transfer.SendData.{LockedSendData, unlock}
use fyles_release.Core.Domain.{transfer_data, in_progress, interrupted}
use fyles_release.P2p.FileTracker.{
  Outside, Scene, PeerFiles, Run, Handled, send_request, returned, io_error, send_and_forget,
}
use fyles_release.P2p.FileTracker.Chunks.{
  chunk_sender, after_chunk, with_sending, with_manager, finish_sending, give_up_sending,
  interrupt_loop, follow_chunk, send_chunk_round, send_chunks_loop,
}
use fyles_release.P2p.FileTracker.Reset.{reset_all}
use fyles_release.P2p.FileTracker.Accounts.{
  Continues, waiting-append, held, ended, accounted, Balances, BalancesHandled,
}
use fyles_release.P2p.FileTracker.Accounts.Next.{complete_file-Balances}
use fyles_release.P2p.FileTracker.Accounts.Reset.{accounted-reset_all}

module _ {W F : Type 0} (id : FylesId) (o : Outside W F) (peer : PeerId) where
  accounted-finish_sending :
      (files : PeerFiles F) (d : LockedSendData ℕ F) (s : Scene W)
      → accounted id (finish_sending o peer files d s)
        ≡ held id (some (with_sending files d)) + ended id s.log
  unfolding finish_sending reset_all
  accounted-finish_sending files d s =
      let s' =
        (send_request o peer (some d.pending_file.contact_id)
          (Types.FileRequest.done d.send_manager.transfer_id) s).1 in
      let Same : Run W F → Type 0 =
        λ run. accounted id run ≡ held id (some (with_sending files d)) + ended id s.log in
      on_some-Holds Same
        (send_request o peer (some d.pending_file.contact_id)
          (Types.FileRequest.done d.send_manager.transfer_id) s).0
        (λ e.
          on_some-Holds Same (transfer_data d.pending_file.status) (λ q. refl)
            (λ t q. accounted-reset_all id (some (with_sending files d)) s'))
        (λ request e. refl)

  accounted-interrupt_loop :
      (files : PeerFiles F) (d : LockedSendData ℕ F) (s : Scene W)
      → accounted id (interrupt_loop o peer files d s)
        ≡ held id (some (with_sending files d)) + ended id s.log
  unfolding interrupt_loop on_some
  accounted-interrupt_loop files d s = elim (Option-cases (transfer_data d.pending_file.status)) [
    | inl e ↦ rw e refl
    | inr (t, e) ↦ rw e (
        omega (
          arith,
          waiting-append id files.pending
              (record d.pending_file { status = in_progress interrupted t } ∷ []),
        ))
  ]

  give_up_sending-Balances :
      (files : PeerFiles F) (d : LockedSendData ℕ F) (e : ℕ) (s : Scene W)
      → Balances
          (Continues o)
          (held id (some (with_sending files d)) + ended id s.log)
          (accounted id (give_up_sending o peer files d e s))
  unfolding give_up_sending
  give_up_sending-Balances files d e s =
      let s' =
        send_and_forget o peer (some d.pending_file.contact_id)
          (abort_transfer (some d.send_manager.transfer_id)) s in
      let completed =
        complete_file-Balances id o peer (record files { sending = none }) d.pending_file.id
          (io_error e) s' refl in
      (omega (arith, completed), λ k. omega (arith, completed.1 k))

  abbrev BalancesNext : (Option (PeerFiles F) → Scene W → Handled (Run W F)) → Type 0
  BalancesNext next =
      (entry : Option (PeerFiles F)) (s : Scene W)
      → BalancesHandled id (Continues o) (held id entry + ended id s.log) (next entry s)

  follow_chunk-Balances :
      (next : Option (PeerFiles F) → Scene W → Handled (Run W F))
      → BalancesNext next
      → (files : PeerFiles F) (d : LockedSendData ℕ F) (m : SendManager ℕ F) (res : SendRes ℕ)
        (s : Scene W)
      → BalancesHandled id
          (Continues o)
          (held id (some (with_sending files d)) + ended id s.log)
          (follow_chunk o peer next files d m res s)
  unfolding follow_chunk
  follow_chunk-Balances next ih files d m not_ready s = (omega arith, λ k. omega arith)
  follow_chunk-Balances next ih files d m (sent request) s =
      ih (some (with_sending files (with_manager d m))) (after_chunk o peer d s)
  follow_chunk-Balances next ih files d m done s =
      let same = accounted-finish_sending files (with_manager d m) s in
      (omega (arith, same), λ k. omega (arith, same))
  follow_chunk-Balances next ih files d m (SendRes.io_error e) s =
      give_up_sending-Balances files (with_manager d m) e s
  follow_chunk-Balances next ih files d m interrupt s =
      let same = accounted-interrupt_loop files (with_manager d m) (after_chunk o peer d s) in
      (omega (arith, same), λ k. omega (arith, same))

  pub send_chunks_loop-Balances :
      (fuel : ℕ) (contact : Option ContactId) (entry : Option (PeerFiles F)) (s : Scene W)
      → BalancesHandled id
          (Continues o)
          (held id entry + ended id s.log)
          (send_chunks_loop o peer fuel contact entry s)
  unfolding send_chunks_loop send_chunk_round
  send_chunks_loop-Balances zero contact entry s = tt
  send_chunks_loop-Balances (suc fuel) contact none s = (omega arith, λ k. omega arith)
  send_chunks_loop-Balances (suc fuel) contact (some files) s =
      let before = held id (some files) + ended id s.log in
      let Sound : Handled (Run W F) → Type 0 = BalancesHandled id (Continues o) before in
      let same : Sound (returned (record { files = some files; scene = s })) =
        (omega arith, λ k. omega arith) in
      on_some-Holds Sound files.sending (λ e. same)
        (λ d e.
          on_some-Holds Sound (unlock d contact) (λ u. same)
            (λ unlocked u.
              let (res, m) =
                send_next_chunk o.files (chunk_sender o peer d.pending_file.contact_id s)
                  d.send_manager in
              rw e (
                follow_chunk-Balances (send_chunks_loop o peer fuel contact)
                  (send_chunks_loop-Balances fuel contact) (with_sending files d) d m res s)))
