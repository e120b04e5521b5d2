-- ===== src/P2p/FileTracker/Calls.antt =====
-- fyles_service/p2p/src/event_loop/filerequest/file_tracker.rs: the calls that the tracker gets for one
-- peer, one after the other, each with the lock of the files.
use fyles_release.Base.{ℕ, Bool, Option, List, [], ◌∷◌}
use fyles_release.P2p.Types.{ContactId, PeerId, FileResponse}
use fyles_release.Core.Domain.{PendingFile}
use fyles_release.P2p.FileTracker.{
  Outside, Scene, PeerFiles, Run, Handled, returned, deadlocked, panicked, out_of_fuel,
}
use fyles_release.P2p.FileTracker.Responses.{receive_response}
use fyles_release.P2p.FileTracker.Errors.{ReceiveError, handle_receive_error}
use fyles_release.P2p.FileTracker.Cancel.{
  add_pending_file, trigger_interaction_with, cancel_files, reset_for_disconnected_peer,
}

pub data Call : Type 0 where
  respond : Option ContactId → Option ℕ → FileResponse → Call
  fail : ReceiveError → Call
  add : PendingFile → Call
  trigger disconnect : Call
  -- The test of the files to cancel.
  cancel : (PendingFile → Bool) → Call

module _ {W F : Type 0} (o : Outside W F) (peer : PeerId) where
  unfoldable pub perform : Call → Option (PeerFiles F) → Scene W → Handled (Run W F)
  perform (respond contact request response) entry s =
      receive_response o peer contact request response entry s
  perform (fail e) entry s = returned (handle_receive_error o peer e entry s)
  perform (add p) entry s = returned (add_pending_file p entry s)
  perform trigger entry s = returned (trigger_interaction_with o peer entry s)
  perform disconnect entry s = returned (reset_for_disconnected_peer entry s)
  perform (cancel test) entry s = returned (cancel_files o peer test entry s).1

  -- The rest of the calls, if the one before returned.
  unfoldable pub and_then :
      (Option (PeerFiles F) → Scene W → Handled (Run W F)) → Handled (Run W F) → Handled (Run W F)
  and_then rest (returned run) = rest run.files run.scene
  and_then rest deadlocked = deadlocked
  and_then rest panicked = panicked
  and_then rest out_of_fuel = out_of_fuel

  unfoldable pub perform_all : List Call → Option (PeerFiles F) → Scene W → Handled (Run W F)
  perform_all [] entry s = returned (record { files = entry; scene = s })
  perform_all (c ∷ cs) entry s = and_then (perform_all cs) (perform c entry s)
