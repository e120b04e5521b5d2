-- ===== src/P2p/Transfer/Receiver/Isolation.antt =====
-- A message of one peer leaves the transfers of the others.
use fyles_release.Base.{◌≤◌, ◌≡◌, Option, none, some, arith, nat_eq}
use fyles_release.P2p.Types.{
  ContactId, PeerId, DataChunk, FileRequest, new_transfer, continue_transfer, abort_transfer, chunk,
  done, protocol_violation,
}
use fyles_release.P2p.Data.IdleExpiryMap.{get_mut, write_through, take}
use fyles_release.P2p.Data.IdleExpiryMap.Entry.{IdleEntry, entry}
use fyles_release.P2p.Data.IdleExpiryMap.View.{IsWell}
use fyles_release.P2p.Data.IdleExpiryMap.Local.{
  Local, Local-later, entry_key, entry_key-entry, entry-Local, get_mut-Local,
}
use fyles_release.P2p.Transfer.ReceiveManager.{
  ReceiveManager, ReceiverRes, received, io_error, protocol_violation as violated, store,
}
use fyles_release.P2p.Transfer.Receiver.{
  World, Receivers, Reply, respond_chunk, respond_chunk_seen, respond_stored, respond_to,
}
use fyles_release.P2p.Transfer.Receiver.Steps

module _ {F D : Type 0} (w : World F D) (node : PeerId) (contact : Option ContactId) where
  -- An answer, if there is one, leaves the map as the other peers see it.
  abbrev pub Answered : Receivers F D → Option (Reply F D) → Type 0
  Answered m none = Unit {0}
  Answered m (some r) = Local node w.ended m r.receiving_files

  respond_stored-Local :
      (m : Receivers F D) (res : Option (ReceiverRes × ReceiveManager F D))
      → IsWell m
      → Answered m (respond_stored w node contact m res)
  unfolding respond_stored
  respond_stored-Local m none well = tt
  respond_stored-Local m (some (received, r)) well = Steps.rewritten w node contact m well r
  respond_stored-Local m (some (violated, r)) well =
      let p = Steps.rewritten w node contact m well r in
      let m' = write_through m node r in
      Steps.then-Stays w node contact m m' (take m' node w.ended).1 p
        (Steps.dropped w node contact m' p.well w.ended)
  respond_stored-Local m (some (io_error, r)) well =
      let p = Steps.rewritten w node contact m well r in
      let m' = write_through m node r in
      Steps.then-Stays w node contact m m' (take m' node w.ended).1 p
        (Steps.dropped w node contact m' p.well w.ended)

  respond_chunk_seen-Local :
      (m : Receivers F D) (seen : Option (ReceiveManager F D)) (piece : DataChunk)
      → IsWell m
      → Answered m (respond_chunk_seen w node contact m seen piece)
  unfolding respond_chunk_seen
  respond_chunk_seen-Local m none piece well = Steps.stays w node contact m well
  respond_chunk_seen-Local m (some r) piece well = ground (
    arith,
    Steps.dropped w node contact m well w.ended,
    respond_stored-Local m (store w.append r piece) well,
  )

  Answered-after :
      (m m' : Receivers F D) (o : Option (Reply F D))
      → Steps.Stays w node contact m m'
      → Answered m' o
      → Answered m o
  Answered-after m m' none p q = tt
  Answered-after m m' (some r) p q = Steps.then-Stays w node contact m m' r.receiving_files p q

  respond_chunk-Local :
      w.used ≤ w.ended
      → (m : Receivers F D) (piece : DataChunk) → IsWell m
      → Answered m (respond_chunk w node contact m piece)
  unfolding respond_chunk
  respond_chunk-Local in_time m piece well =
      let m' = (get_mut m node w.used).1 in
      let seen = (get_mut m node w.used).0 in
      let p : Steps.Stays w node contact m m' =
        Local-later node w.used w.ended m m' in_time (get_mut-Local node w.used m well) in
      Answered-after m m' (respond_chunk_seen w node contact m' seen piece) p
        (respond_chunk_seen-Local m' seen piece p.well)

  -- Whatever a peer sends, every other peer's transfer is afterwards what it was, as long as it was
  -- not idle too long; and the map still holds one manager for a peer.
  pub respond_to-Local :
      (m : Receivers F D) (request : FileRequest)
      → IsWell m
      → w.entered ≤ w.used
      → w.used ≤ w.ended
      → Answered m (respond_to w node contact m request)
  unfolding respond_to
  respond_to-Local m request well h l = answer request
    where
      m' : Receivers F D
      m' = (entry m node w.entered).1

      slot : IdleEntry PeerId
      slot = (entry m node w.entered).0

      key : entry_key slot ≡ node
      key = entry_key-entry node m w.entered

      p : Steps.Stays w node contact m m'
      p = Local-later node w.entered w.ended m m' (omega arith) (entry-Local node w.entered m well)

      answer : (r : FileRequest) → Answered m (respond_to w node contact m r)
      answer (new_transfer filerequest file_name size transfer) =
          Steps.then-Stays w node contact m m' _ p (
            Steps.respond_new-Local w node contact m' slot filerequest file_name size transfer
              p.well key)
      answer (continue_transfer filerequest transfer) =
          Steps.then-Stays w node contact m m' _ p
            (Steps.respond_continue-Local w node contact l m' slot filerequest transfer p.well key)
      answer (abort_transfer requested) =
          Steps.then-Stays w node contact m m' _ p
            (Steps.respond_abort-Local w node contact m' requested p.well)
      answer (chunk piece) = Answered-after m m' _ p (respond_chunk-Local l m' piece p.well)
      answer (done transfer) =
          Steps.then-Stays w node contact m m' _ p
            (Steps.respond_done-Local w node contact l m' transfer p.well)
      answer (protocol_violation transfer) =
          Steps.then-Stays w node contact m m' _ p (Steps.dropped w node contact m' p.well w.used)
