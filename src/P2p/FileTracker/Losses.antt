-- ===== src/P2p/FileTracker/Losses.antt =====
-- fyles_service/p2p/src/event_loop/filerequest/file_tracker.rs: a way in which a file leaves the
-- tracker although the brain hears of no outcome.
use fyles_release.Base.{ℕ, ◌≡◌, refl, Option, none, some, on_some}
use fyles_release.P2p.Types.{ContactId, PeerId, reject_chunk}
use fyles_release.P2p.Transfer.SendData.{LockedSendData}
use fyles_release.Core.Domain.{sending}
use fyles_release.P2p.FileTracker.{Outside, Scene, PeerFiles, Run, returned}
use fyles_release.P2p.FileTracker.Reset.{
  reset_all, reset_all_with_occupied, reset_all_on_protocol_violation_for,
}
use fyles_release.P2p.FileTracker.Responses.{
  in_status, without_sending, receive_reject_chunk, receive_response,
}

module _ {W F : Type 0} (o : Outside W F) (peer : PeerId) where
  -- A RejectChunk for a file in the slot that is not in status Sending empties the slot, and tells
  -- the brain and the plugin nothing: the file is lost.
  pub reject_chunk-drops :
      (contact : Option ContactId) (request : Option ℕ) (files : PeerFiles F)
      (d : LockedSendData ℕ F) (s : Scene W)
      → files.sending ≡ some d
      → in_status sending d.pending_file.status ≡ none
      → (run : Run W F) × (receive_response o peer contact request reject_chunk (some files) s
          ≡ returned run)
        × (run.files ≡ some (without_sending files))
        × (run.scene.log ≡ s.log)
  unfolding receive_response receive_reject_chunk reset_all_on_protocol_violation_for reset_all
      reset_all_with_occupied on_some
  reject_chunk-drops contact request files d s e u = (
    reset_all_on_protocol_violation_for o peer (some (without_sending files)) s,
    rw (e, u) refl,
    refl,
    refl,
  )
