-- ===== src/P2p/Transfer/Receiver/Answers.antt =====
-- What the receiver answers to a chunk and to the end of a transfer, and what it then keeps.
use fyles_release.Base.{
  ℕ, ◌≤◌, ◌≡◌, ◌≢◌, ◌⊎◌, refl, ◌∙◌, Bool, true, false, not, Option, none, some, List, [], ◌∷◌,
  if◌then◌else◌, ◌==◌, arith, nat_eq, Bool-cases, inl, inr,
}
use fyles_release.P2p.Types.{
  ContactId, PeerId, DataChunk, FileRequest, FileResponse, new_transfer, continue_transfer,
  abort_transfer, chunk, done, confirm_chunk,
}
use fyles_release.P2p.Data.IdleExpiryMap.{get_mut, write_through, take}
use fyles_release.P2p.Data.IdleExpiryMap.Entry.{entry}
use fyles_release.P2p.Data.IdleExpiryMap.View.{view, until, IsWell, view-get_mut, view-take}
use fyles_release.P2p.Data.IdleExpiryMap.Local.{entry-Local}
use fyles_release.P2p.Data.IdleExpiryMap.Access.{view-entry, idle_ttl-entry, view-write_through}
use fyles_release.P2p.Transfer.ReceiveManager.{
  ReceiveManager, ReceiverRes, received, io_error, protocol_violation as violated, store,
}
use fyles_release.P2p.Transfer.ReceiveManager.Ends.{store-Ends}
use fyles_release.P2p.Transfer.Receiver.{
  World, Receivers, Reply, BrainMessage, update_received_file_status, receiving, eq_option,
  respond_chunk, respond_chunk_seen, respond_stored, respond_to,
}

module _ {F D : Type 0} (w : World F D) (node : PeerId) (contact : Option ContactId) where
  abbrev Replies : Option (Reply F D) → Type 0
  Replies o = (r : Reply F D) × (o ≡ some r)

  abbrev answer : FileResponse → Receivers F D → List BrainMessage → Reply F D
  answer response m sent = record { response = response; receiving_files = m; messages = sent }

  respond_stored-Replies :
      (m : Receivers F D) (res : ReceiverRes × ReceiveManager F D)
      → Replies (respond_stored w node contact m (some res))
  unfolding respond_stored
  respond_stored-Replies m (received, r) = (_, refl)
  respond_stored-Replies m (violated, r) = (_, refl)
  respond_stored-Replies m (io_error, r) = (_, refl)

  Replies-if :
      (b : Bool) {x y : Option (Reply F D)} → Replies x → Replies y → Replies (if b then x else y)
  Replies-if true p q = p
  Replies-if false p q = q

  respond_chunk_seen-Replies :
      (m : Receivers F D) (seen : Option (ReceiveManager F D)) (piece : DataChunk)
      → Replies (respond_chunk_seen w node contact m seen piece)
  unfolding respond_chunk_seen
  respond_chunk_seen-Replies m none piece = (_, refl)
  respond_chunk_seen-Replies m (some r) piece =
      let (res, e) = store-Ends w.append r piece in
      Replies-if (not (piece.transfer_uuid == r.transfer_id)) (_, refl)
        (Replies-if (not (eq_option contact r.contact_id)) (_, refl)
          (rw e (respond_stored-Replies m res)))

  -- Every message is answered: whatever the peer sends and in whatever state the receiver is, the
  -- loop that writes the chunks ends.
  pub respond_to_answers :
      (m : Receivers F D) (request : FileRequest)
      → (r : Reply F D) × (respond_to w node contact m request ≡ some r)
  unfolding respond_to respond_chunk
  respond_to_answers m (new_transfer filerequest file_name size transfer) = (_, refl)
  respond_to_answers m (continue_transfer filerequest transfer) = (_, refl)
  respond_to_answers m (abort_transfer requested) = (_, refl)
  respond_to_answers m (chunk piece) =
      respond_chunk_seen-Replies (get_mut (entry m node w.entered).1 node w.used).1
        (get_mut (entry m node w.entered).1 node w.used).0 piece
  respond_to_answers m (done transfer) = (_, refl)
  respond_to_answers m (FileRequest.protocol_violation transfer) = (_, refl)

  module _ (m : Receivers F D) (well : IsWell m) (soon : w.entered ≤ w.used) where
    abbrev looked_up : Receivers F D
    looked_up = (entry m node w.entered).1

    looked_up-IsWell : IsWell looked_up
    looked_up-IsWell = (entry-Local node w.entered m well).well

    -- What a chunk's look-up finds, and what it leaves.
    seen-chunk :
        (r : ReceiveManager F D)
        → view m node w.used ≡ some r
        → (get_mut looked_up node w.used).0 ≡ some r
    seen-chunk r h =
        (view-get_mut looked_up node node w.used w.used looked_up-IsWell (omega arith)).0
        ∙ view-entry m node node w.entered w.used well soon
        ∙ h

    left-chunk :
        (r : ReceiveManager F D) (later : ℕ)
        → view m node w.used ≡ some r
        → w.used ≤ later
        → view (get_mut looked_up node w.used).1 node later ≡ until m.idle_ttl w.used later r
    left-chunk r later h l = ground (
      arith,
      view-get_mut looked_up node node w.used later looked_up-IsWell l,
      view-entry m node node w.entered w.used well soon,
      idle_ttl-entry m node w.entered,
      h,
    )

    -- A chunk of another transfer or for another contact than the live transfer of the peer, in a
    -- well-formed map whose clock does not go back, is answered with a protocol violation if the
    -- transfer is another one, else with the random answer; it tells the brain nothing, and from
    -- then on the peer has no transfer any more.
    pub chunk_refused :
        (r : ReceiveManager F D) (piece : DataChunk) (later : ℕ)
        → view m node w.used ≡ some r
        → (piece.transfer_uuid ≢ r.transfer_id) ⊎ (eq_option contact r.contact_id ≡ false)
        → (a : Reply F D) × (respond_to w node contact m (chunk piece) ≡ some a)
          × (a.response ≡ (
              if piece.transfer_uuid == r.transfer_id
              then w.random_response
              else FileResponse.protocol_violation))
          × (a.messages ≡ [])
          × (view a.receiving_files node later ≡ none)
    unfolding respond_to respond_chunk respond_chunk_seen
    chunk_refused r piece later h bad =
        let m' = (get_mut looked_up node w.used).1 in
        let gone : view (take m' node w.ended).1 node later ≡ none =
          ground (arith, view-take m' node node w.ended later) in
        let seen = seen-chunk r h in
        elim (Bool-cases (piece.transfer_uuid == r.transfer_id)) [
          | inr q ↦ (
            answer FileResponse.protocol_violation (take m' node w.ended).1 [],
            ground (arith, seen, q),
            rw q refl,
            refl,
            gone,
          )
          | inl q ↦ (
            answer w.random_response (take m' node w.ended).1 [],
            ground (arith, seen, q, bad),
            rw q refl,
            refl,
            gone,
          )
        ]

    -- A chunk of the live transfer of the peer, which store takes, is confirmed. The brain is told
    -- the new progress, and the transfer then is what store made of it, until it was idle too long.
    pub chunk_stored :
        (r r' : ReceiveManager F D) (piece : DataChunk) (later : ℕ)
        → view m node w.used ≡ some r
        → piece.transfer_uuid ≡ r.transfer_id
        → eq_option contact r.contact_id ≡ true
        → store w.append r piece ≡ some (received, r')
        → w.used ≤ later
        → (a : Reply F D) × (respond_to w node contact m (chunk piece) ≡ some a)
          × (a.response ≡ confirm_chunk)
          × (a.messages
              ≡ update_received_file_status r'.transfer_id receiving r'.byte_progress ∷ [])
          × (view a.receiving_files node later ≡ until m.idle_ttl w.used later r')
    unfolding respond_to respond_chunk respond_chunk_seen respond_stored
    chunk_stored r r' piece later h t c s l =
        let m' = (get_mut looked_up node w.used).1 in
        let seen = seen-chunk r h in
        (
          answer confirm_chunk (write_through m' node r')
              (update_received_file_status r'.transfer_id receiving r'.byte_progress ∷ []),
          ground (arith, seen, t, c, s),
          refl,
          refl,
          ground (arith, view-write_through m' node r' later, left-chunk r later h l),
        )
