-- ===== src/P2p/FileTracker/Loop.antt =====
-- fyles_service/p2p/src/event_loop/filerequest/file_tracker.rs: `send_chunks_loop` ends, since each
-- round that sends a chunk takes a slot of the window.
use native.Mathlib.Nat.{mod-eq_of_lt}
use fyles_release.Base.{
  ℕ, zero, suc, ◌+◌, ◌≤◌, ◌<◌, ◌≡◌, ◌∙◌, refl, Option, none, some, on_some-Holds, nat_eq, arith,
}
use fyles_release.P2p.Types.{ContactId, PeerId, parallel_chunks, u32_mod}
use fyles_release.P2p.Transfer.SendManager.{
  SendManager, SendRes, not_ready, sent, done, interrupt, send_next_chunk,
}
use fyles_release.P2p.Transfer.SendManager.Bounds.{IsBounded, send_next_chunk-sent}
use fyles_release.P2p.Transfer.SendData.{LockedSendData, unlock}
use fyles_release.P2p.FileTracker.{
  Outside, Scene, PeerFiles, Run, Handled, returned, deadlocked, panicked, out_of_fuel,
}
use fyles_release.P2p.FileTracker.Chunks.{
  chunk_sender, after_chunk, with_sending, with_manager, follow_chunk, send_chunk_round,
  send_chunks_loop, loop_fuel,
}

abbrev pub Returns {ℓ} : {A : Type ℓ} → Handled A → Type 0
Returns (returned a) = Unit
Returns deadlocked = ⊥
Returns panicked = ⊥
Returns out_of_fuel = ⊥

abbrev pub IsBoundedSlot : {F : Type 0} → Option (LockedSendData ℕ F) → Type 0
IsBoundedSlot none = Unit
IsBoundedSlot (some d) = IsBounded d.send_manager

-- The numbers of the chunks of the file in the slot still fit a `u32` for one more window.
abbrev pub IsBoundedEntry : {F : Type 0} → Option (PeerFiles F) → Type 0
IsBoundedEntry none = Unit
IsBoundedEntry (some files) = IsBoundedSlot files.sending

-- The fuel is more than the window has free slots, and no number overflows.
record HasFuel {F : Type 0} (fuel : ℕ) (m : SendManager ℕ F) : Type 0 where
  order : m.earliest_not_sent ≤ m.next_slot
  free : m.earliest_not_sent + parallel_chunks < m.next_slot + fuel
  fits : m.next_slot + fuel ≤ u32_mod

abbrev SlotHasFuel : {F : Type 0} → ℕ → Option (LockedSendData ℕ F) → Type 0
SlotHasFuel fuel none = Unit
SlotHasFuel fuel (some d) = HasFuel fuel d.send_manager

abbrev EntryHasFuel : {F : Type 0} → ℕ → Option (PeerFiles F) → Type 0
EntryHasFuel fuel none = Unit
EntryHasFuel fuel (some files) = SlotHasFuel fuel files.sending

module _ {W F : Type 0} (o : Outside W F) (peer : PeerId) (contact : Option ContactId) where
  follow_chunk-Returns :
      (fuel : ℕ)
      → ((entry : Option (PeerFiles F)) (s : Scene W)
          → 0 < fuel
          → EntryHasFuel fuel entry
          → Returns (send_chunks_loop o peer fuel contact entry s))
      → (files : PeerFiles F) (d : LockedSendData ℕ F) (s : Scene W) (res : SendRes ℕ)
      → let result =
          send_next_chunk o.files
            (chunk_sender o peer d.pending_file.contact_id s)
            d.send_manager in
        result.0 ≡ res
        → HasFuel (suc fuel) d.send_manager
        → Returns
            (follow_chunk o peer (send_chunks_loop o peer fuel contact) files d result.1 res s)
  unfolding follow_chunk
  follow_chunk-Returns fuel ih files d s not_ready e h = tt
  follow_chunk-Returns fuel ih files d s (sent id) e h =
      let send = chunk_sender o peer d.pending_file.contact_id s in
      let m = (send_next_chunk o.files send d.send_manager).1 in
      let (room, slot, earliest) = send_next_chunk-sent o.files send d.send_manager id e in
      let next : m.next_slot ≡ d.send_manager.next_slot + 1 =
        slot ∙ mod-eq_of_lt (omega (arith, h.fits, h.free, room)) in
      ih (some (with_sending files (with_manager d m))) (after_chunk o peer d s)
        (omega (arith, h.free, h.order, room))
        (record {
          order = omega (arith, next, earliest, h.order);
          free = omega (arith, next, earliest, h.free);
          fits = omega (arith, next, h.fits);
        })
  follow_chunk-Returns fuel ih files d s done e h = tt
  follow_chunk-Returns fuel ih files d s (SendRes.io_error n) e h = tt
  follow_chunk-Returns fuel ih files d s interrupt e h = tt

  send_chunks_loop-Returns :
      (fuel : ℕ) (entry : Option (PeerFiles F)) (s : Scene W)
      → 0 < fuel
      → EntryHasFuel fuel entry
      → Returns (send_chunks_loop o peer fuel contact entry s)
  unfolding send_chunks_loop send_chunk_round
  send_chunks_loop-Returns zero entry s p h = absurd (omega arith)
  send_chunks_loop-Returns (suc fuel) none s p h = tt
  send_chunks_loop-Returns (suc fuel) (some files) s p h =
      on_some-Holds {B = Handled (Run W F)} Returns files.sending (λ e. tt)
        (λ d e.
          on_some-Holds {B = Handled (Run W F)} Returns (unlock d contact) (λ u. tt)
            (λ unlocked u.
              follow_chunk-Returns fuel (send_chunks_loop-Returns fuel) files d s
                (send_next_chunk o.files (chunk_sender o peer d.pending_file.contact_id s)
                  d.send_manager).0
                refl (rw e at h)))

  -- The loop returns, since the fuel is more than the slots of the window.
  pub send_chunks_loop_lem :
      (entry : Option (PeerFiles F)) (s : Scene W)
      → IsBoundedEntry entry
      → Returns (send_chunks_loop o peer loop_fuel contact entry s)
  send_chunks_loop_lem none s h = send_chunks_loop-Returns loop_fuel none s (omega arith) tt
  send_chunks_loop_lem (some files) s h =
      send_chunks_loop-Returns loop_fuel (some files) s (omega arith) (enough files.sending h)
    where
      enough :
          (slot : Option (LockedSendData ℕ F)) → IsBoundedSlot slot → SlotHasFuel loop_fuel slot
      enough none b = tt
      enough (some d) b = record {
        order = b.order;
        free = omega (arith, b.order);
        fits = omega (arith, b.room);
      }
