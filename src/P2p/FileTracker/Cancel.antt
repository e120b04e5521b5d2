-- ===== src/P2p/FileTracker/Cancel.antt =====
-- fyles_service/p2p/src/event_loop/filerequest/file_tracker.rs: adding and cancelling files, and the
-- other operations of `FileTracker`, with the entry of the peer.
use fyles_release.Base.{
  on_some, ℕ, Bool, true, false, not, Option, none, some, List, [], ◌∷◌, ◌++◌, retain, length,
  if◌then◌else◌, ◌==◌,
}
use fyles_release.P2p.Types.{PeerId, abort_transfer}
use fyles_release.P2p.Transfer.SendData.{LockedSendData, get_transfer_id}
use fyles_release.Core.Domain.{
  prepared, sending, interrupted, pending_sent, SendStatus, pending, in_progress, sent, rejected,
  failed, unknown, PendingFile,
}
use fyles_release.P2p.FileTracker.{
  pending_file_added, pending_file_removed, plugin, Outside, Scene, tell, PeerFiles, no_files, Run,
  send_and_forget,
}
use fyles_release.P2p.FileTracker.Next.{send_next}
use fyles_release.P2p.FileTracker.Reset.{reset_all}

abbrev pub is_empty : List PendingFile → Bool
is_empty [] = true
is_empty (p ∷ ps) = false

abbrev pub is_some {ℓ} : {A : Type ℓ} → Option A → Bool
is_some none = false
is_some (some a) = true

-- The statuses that `add_pending_file` takes.
abbrev pub can_wait : SendStatus → Bool
can_wait pending = true
can_wait (in_progress interrupted t) = true
can_wait (in_progress prepared t) = false
can_wait (in_progress sending t) = false
can_wait (in_progress pending_sent t) = false
can_wait sent = false
can_wait rejected = false
can_wait failed = false
can_wait (unknown text) = false

abbrev or_default : {F : Type 0} → Option (PeerFiles F) → PeerFiles F
or_default none = no_files
or_default (some files) = files

unfoldable pub has_pending_files_for : {F : Type 0} → Option (PeerFiles F) → Bool
has_pending_files_for none = false
has_pending_files_for (some files) = not (is_empty files.pending)

unfoldable pub has_sending_files_for : {F : Type 0} → Option (PeerFiles F) → Bool
has_sending_files_for none = false
has_sending_files_for (some files) = is_some files.sending

-- A test of the file in the slot.
abbrev pub sending_passes : {F : Type 0} → (PendingFile → Bool) → PeerFiles F → Bool
sending_passes test files = on_some files.sending (false) (λ d. test d.pending_file)

module _ {W F : Type 0} where
  unfoldable pub add_pending_file : PendingFile → Option (PeerFiles F) → Scene W → Run W F
  add_pending_file p entry s =
      let files = or_default entry in
      if can_wait p.status
      then record {
        files = some (record files { pending = files.pending ++ (p ∷ []) });
        scene = tell (plugin (pending_file_added false)) s;
      }
      else record { files = entry; scene = s }

  unfoldable pub reset_for_disconnected_peer : Option (PeerFiles F) → Scene W → Run W F
  reset_for_disconnected_peer entry s =
      if not (has_sending_files_for entry)
      then record { files = entry; scene = s }
      else (reset_all entry s).1

  -- The end of both ways to cancel: whether a file was removed, and what is left.
  unfoldable pub cancel_pending : (PendingFile → Bool) → PeerFiles F → Scene W → Bool × Run W F
  cancel_pending test files s =
      let kept = retain (λ p. not (test p)) files.pending in
      if length files.pending == length kept
      then (false, record { files = some (record files { pending = kept }); scene = s })
      else (
        true,
        record {
          files = some (record files { pending = kept });
          scene =
              tell (plugin (pending_file_removed (not (is_empty kept)) (is_some files.sending))) s;
        },
      )

module _ {W F : Type 0} (o : Outside W F) (peer : PeerId) where
  unfoldable pub trigger_interaction_with : Option (PeerFiles F) → Scene W → Run W F
  trigger_interaction_with none s = record { files = none; scene = s }
  trigger_interaction_with (some files) s =
      on_some files.sending (send_next o peer files.pending none s)
        (λ d. record { files = some files; scene = s })

  -- The file in the slot is taken, the peer is told to abort, and the next file follows.
  unfoldable pub cancel_sending : PeerFiles F → LockedSendData ℕ F → Scene W → Run W F
  cancel_sending files d s =
      let s' =
        send_and_forget o peer (some d.pending_file.contact_id)
          (abort_transfer (some (get_transfer_id d))) s in
      send_next o peer files.pending none
        (tell (plugin (pending_file_removed (not (is_empty files.pending)) false)) s')

  -- `cancel_file` and `cancel_file_by_target` differ in the test of the file.
  unfoldable pub cancel_files :
      (PendingFile → Bool) → Option (PeerFiles F) → Scene W → Bool × Run W F
  cancel_files test none s = (false, record { files = none; scene = s })
  cancel_files test (some files) s = on_some files.sending (cancel_pending test files s) (λ d.
      if test d.pending_file then (true, cancel_sending files d s) else cancel_pending test files s)
