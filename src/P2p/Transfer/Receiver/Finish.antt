-- ===== src/P2p/Transfer/Receiver/Finish.antt =====
-- When the receiver confirms the end of a transfer.
use fyles_release.Base.{
  ℕ, ◌≤◌, ◌≡◌, refl, sym, ◌∙◌, true, Option, none, some, List, [], ◌∷◌, ◌==◌, arith, nat_eq,
  Option-cases, Bool-cases, inl, inr,
}
use fyles_release.P2p.Types.{FylesId, ContactId, PeerId, done, confirm_done}
use fyles_release.P2p.Data.IdleExpiryMap.Entry.{IdleEntry, occupied, vacant, entry, occupied_get}
use fyles_release.P2p.Data.IdleExpiryMap.View.{view, IsWell}
use fyles_release.P2p.Data.IdleExpiryMap.Local.{entry-Local, entry_key, entry_key-entry}
use fyles_release.P2p.Data.IdleExpiryMap.Access.{view-entry, entry-occupied, occupied_get-view}
use fyles_release.P2p.Transfer.ReceiveManager.{ReceiveManager}
use fyles_release.P2p.Transfer.Receiver.{
  World, Receivers, Reply, BrainMessage, store_received_file, part_name, respond_done,
  respond_done_entry, respond_done_seen, respond_finalize, respond_to,
}

module _ {F D : Type 0} (w : World F D) (node : PeerId) (contact : Option ContactId) where
  -- The transfer is complete, its partial file was renamed to `path`, and the brain stored it.
  pub record Finalized (r : ReceiveManager F D) (transfer : FylesId) (sent : List BrainMessage)
      : Type 0 where
    pub same_transfer : r.transfer_id ≡ transfer
    pub complete : r.byte_progress ≡ r.declared_file_size_bytes
    pub path : ℕ
    pub finalized :
        w.finalize_partial r.drive_handler
          (part_name w node contact r.started_at_ms transfer)
          r.file_name
        ≡ some path
    pub ms : ℕ
    pub clock : w.unix_epoch_millis ≡ some ms
    pub stored : w.stored ≡ true
    pub told : sent ≡ store_received_file r.transfer_id path ms ∷ []

  respond_finalize-confirms :
      (m : Receivers F D) (r : ReceiveManager F D) (transfer : FylesId)
      → r.transfer_id ≡ transfer
      → r.byte_progress ≡ r.declared_file_size_bytes
      → (respond_finalize w node contact m r transfer).response ≡ confirm_done
      → Finalized r transfer (respond_finalize w node contact m r transfer).messages
  unfolding respond_finalize
  respond_finalize-confirms m r transfer t c h =
      elim (Option-cases (
        w.finalize_partial r.drive_handler (part_name w node contact r.started_at_ms transfer)
          r.file_name)) [
            | inl p ↦ absurd (ground (arith, p, h))
            | inr (path, p) ↦ elim (Option-cases w.unix_epoch_millis) [
              | inl q ↦ absurd (ground (arith, p, q, h))
              | inr (ms, q) ↦ elim (Bool-cases w.stored) [
                | inl s ↦ record {
                  same_transfer = t;
                  complete = c;
                  path = path;
                  finalized = p;
                  ms = ms;
                  clock = q;
                  stored = s;
                  told = ground (arith, p, q, s);
                }
                | inr s ↦ absurd (ground (arith, p, q, s, h))
              ]
            ]
          ]

  Finalized-confirms :
      (m : Receivers F D) (r : ReceiveManager F D) (transfer : FylesId) (sent : List BrainMessage)
      → Finalized r transfer sent
      → (respond_finalize w node contact m r transfer).response ≡ confirm_done
  unfolding respond_finalize
  Finalized-confirms m r transfer sent f = ground (arith, f.finalized, f.clock, f.stored)

  respond_done_seen-confirms :
      (m : Receivers F D) (seen : Option (ReceiveManager F D)) (transfer : FylesId)
      → (respond_done_seen w node contact m seen transfer).response ≡ confirm_done
      → (r : ReceiveManager F D) × (seen ≡ some r)
        × Finalized r transfer (respond_done_seen w node contact m seen transfer).messages
  unfolding respond_done_seen
  respond_done_seen-confirms m none transfer h = absurd (ground (arith, h))
  respond_done_seen-confirms m (some r) transfer h = elim (Bool-cases (r.transfer_id == transfer)) [
    | inr q ↦ absurd (ground (arith, q, h))
    | inl q ↦ elim (Bool-cases (r.byte_progress == r.declared_file_size_bytes)) [
      | inr c ↦ absurd (ground (arith, q, c, h))
      | inl c ↦ (
        r,
        refl,
        rw (q, c)
            (respond_finalize-confirms m r transfer (ground (arith, q)) (ground (arith, c))
              (rw (q, c) at h)),
      )
    ]
  ]

  seen-confirms :
      (m : Receivers F D) (r : ReceiveManager F D) (transfer : FylesId) (sent : List BrainMessage)
      → Finalized r transfer sent
      → (respond_done_seen w node contact m (some r) transfer).response ≡ confirm_done
  unfolding respond_done_seen
  seen-confirms m r transfer sent f =
      ground (arith, f.same_transfer, f.complete, Finalized-confirms m r transfer sent f)

  module _ (m : Receivers F D) (well : IsWell m) (soon : w.entered ≤ w.used)
      (later : w.used ≤ w.ended) where
    abbrev looked_up : Receivers F D
    looked_up = (entry m node w.entered).1

    abbrev again : Receivers F D
    again = (entry looked_up node w.used).1

    looked_up-IsWell : IsWell looked_up
    looked_up-IsWell = (entry-Local node w.entered m well).well

    seen-done : (occupied_get again node w.ended).0 ≡ view m node w.ended
    seen-done =
        occupied_get-view again node w.ended
        ∙ view-entry looked_up node node w.used w.ended looked_up-IsWell later
        ∙ view-entry m node node w.entered w.ended well (omega arith)

    done_entry-confirms :
        (slot : IdleEntry PeerId) (transfer : FylesId)
        → entry_key slot ≡ node
        → (respond_done_entry w node contact again slot transfer).response ≡ confirm_done
        → (r : ReceiveManager F D) × (view m node w.ended ≡ some r)
          × Finalized r transfer (respond_done_entry w node contact again slot transfer).messages
    unfolding respond_done_entry
    done_entry-confirms (vacant key) transfer q h = absurd (ground (arith, h))
    done_entry-confirms (occupied key) transfer q h =
        let got = occupied_get again key w.ended in
        let (r, e, f) = respond_done_seen-confirms got.1 got.0 transfer h in
        let found : got.0 ≡ view m node w.ended = rw q seen-done in (r, sym found ∙ e, f)

    -- The end of a transfer is confirmed only if the peer has that transfer, live and with all
    -- declared bytes written, its partial file was given its final name, and the brain stored it
    -- under that path. The map is well formed and the clock does not go back.
    pub confirm_done_only :
        (transfer : FylesId) (a : Reply F D)
        → respond_to w node contact m (done transfer) ≡ some a
        → a.response ≡ confirm_done
        → (r : ReceiveManager F D) × (view m node w.ended ≡ some r)
          × Finalized r transfer a.messages
    unfolding respond_to respond_done
    confirm_done_only transfer a e h =
        let slot = (entry looked_up node w.used).0 in
        let out = respond_done_entry w node contact again slot transfer in
        let same : out ≡ a = ground (arith, e) in
        rw (← same) (
          done_entry-confirms slot transfer (entry_key-entry node looked_up w.used)
            (rw (← same) at h))

    still_there :
        (r : ReceiveManager F D)
        → view m node w.ended ≡ some r
        → view looked_up node w.used ≡ some r
    still_there r h = view-entry m node node w.entered w.used well soon ∙ ground (arith, h)

    -- If the peer has that transfer, live and with all declared bytes written, its partial file
    -- gets its final name and the brain stores it, the end of the transfer is confirmed.
    pub confirm_done_if :
        (transfer : FylesId) (r : ReceiveManager F D) (sent : List BrainMessage)
        → view m node w.ended ≡ some r
        → Finalized r transfer sent
        → (a : Reply F D) × (respond_to w node contact m (done transfer) ≡ some a)
          × (a.response ≡ confirm_done)
    unfolding respond_to respond_done respond_done_entry
    confirm_done_if transfer r sent h f =
        let at = entry-occupied looked_up node w.used r looked_up-IsWell (still_there r h) in
        let m' = (occupied_get again node w.ended).1 in
        (
          respond_done_seen w node contact m' (some r) transfer,
          rw (at, seen-done ∙ h),
          seen-confirms m' r transfer sent f,
        )
