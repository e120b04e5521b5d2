-- ===== src/P2p/FileTracker/Peers.antt =====
-- fyles_service/p2p/src/event_loop/filerequest/file_tracker.rs: `CoreFileTracker`, the operations over
-- the map of all peers.
use fyles_release.Base.{
  on_some, ℕ, Bool, true, false, ◌||◌, Option, none, some, List, [], ◌∷◌, any, map, if◌then◌else◌,
  ◌==◌, nat_eq,
}
use fyles_release.Base.HashMap.{HashMap, lookup, insert, remove}
use fyles_release.P2p.Types.{FylesId, ContactId, PeerId, FileResponse}
use fyles_release.Core.Domain.{PendingFile}
use fyles_release.P2p.FileTracker.{
  Outside, Scene, PeerFiles, Run, Handled, returned, deadlocked, panicked, out_of_fuel,
}
use fyles_release.P2p.FileTracker.Responses
use fyles_release.P2p.FileTracker.Errors.{ReceiveError}
use fyles_release.P2p.FileTracker.Errors
use fyles_release.P2p.FileTracker.Cancel.{sending_passes}
use fyles_release.P2p.FileTracker.Cancel

abbrev pub Files : Type 0 → Type 0
Files F = HashMap PeerId (PeerFiles F)

module _ {F : Type 0} where
  -- The entry of one peer as an operation left it.
  unfoldable pub store_entry : PeerId → Option (PeerFiles F) → Files F → Files F
  store_entry peer none m = remove peer m
  store_entry peer (some files) m = insert peer files m

  unfoldable pub get_peers_with_pending_files : Files F → List PeerId
  get_peers_with_pending_files m = map (λ entry. entry.0) m

  abbrev pub holds_file : FylesId → PeerFiles F → Bool
  holds_file id files =
      sending_passes (λ p. p.id == id) files || any (λ p. p.id == id) files.pending

  -- `find_map` in the order of iteration.
  unfoldable pub find_peer : FylesId → Files F → Option PeerId
  find_peer id [] = none
  find_peer id ((peer, files) ∷ m) = if holds_file id files then some peer else find_peer id m

module _ {W F : Type 0} where
  abbrev pub store_run : PeerId → Run W F → Files F → Files F × Scene W
  store_run peer run m = (store_entry peer run.files m, run.scene)

  unfoldable pub store_handled : PeerId → Files F → Handled (Run W F) → Handled (Files F × Scene W)
  store_handled peer m (returned run) = returned (store_run peer run m)
  store_handled peer m deadlocked = deadlocked
  store_handled peer m panicked = panicked
  store_handled peer m out_of_fuel = out_of_fuel

  unfoldable pub add_pending_file : PeerId → PendingFile → Files F → Scene W → Files F × Scene W
  add_pending_file peer p m s = store_run peer (Cancel.add_pending_file p (lookup peer m) s) m

  unfoldable pub reset_for_disconnected_peer : PeerId → Files F → Scene W → Files F × Scene W
  reset_for_disconnected_peer peer m s =
      store_run peer (Cancel.reset_for_disconnected_peer (lookup peer m) s) m

  abbrev pub cancelled : PeerId → Bool × Run W F → Files F → Option PeerId × Files F × Scene W
  cancelled peer (true, run) m = (some peer, store_entry peer run.files m, run.scene)
  cancelled peer (false, run) m = (none, store_entry peer run.files m, run.scene)

module _ {W F : Type 0} (o : Outside W F) where
  unfoldable pub receive_response :
      PeerId
      → Option ContactId
      → Option ℕ
      → FileResponse
      → Files F
      → Scene W
      → Handled (Files F × Scene W)
  receive_response peer contact id response m s =
      store_handled peer m (Responses.receive_response o peer contact id response (lookup peer m) s)

  unfoldable pub handle_receive_error :
      PeerId → ReceiveError → Files F → Scene W → Files F × Scene W
  handle_receive_error peer e m s =
      store_run peer (Errors.handle_receive_error o peer e (lookup peer m) s) m

  unfoldable pub trigger_interaction_with : PeerId → Files F → Scene W → Files F × Scene W
  trigger_interaction_with peer m s =
      store_run peer (Cancel.trigger_interaction_with o peer (lookup peer m) s) m

  unfoldable pub cancel_file : FylesId → Files F → Scene W → Option PeerId × Files F × Scene W
  cancel_file id m s =
      on_some (find_peer id m) (none, m, s)
        (λ peer. cancelled peer (Cancel.cancel_files o peer (λ p. p.id == id) (lookup peer m) s) m)

  unfoldable pub cancel_file_by_target :
      FylesId → PeerId → Files F → Scene W → Option PeerId × Files F × Scene W
  cancel_file_by_target target peer m s =
      cancelled peer
        (Cancel.cancel_files o peer (λ p. p.target_filerequest_id == target) (lookup peer m) s) m
