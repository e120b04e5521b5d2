-- ===== src/P2p/FileTracker.antt =====
-- fyles_service/p2p/src/event_loop/filerequest/file_tracker.rs: the sender's files of one peer, and
-- what surrounds them. The children model the operations, the last one over the map of all peers.
pub mod Next
pub mod Reset
pub mod Chunks
pub mod Verify
pub mod Responses
pub mod Errors
pub mod Cancel
pub mod Peers
pub mod Calls
pub mod Loop
pub mod Ends
pub mod Accounts
pub mod Phases
pub mod Isolation
pub mod Losses
mod Examples
use fyles_release.Base.{ℕ, Bool, Option, none, List, [], ◌∷◌}
use fyles_release.P2p.Types.{FylesId, ContactId, PeerId, FileRequest}
use fyles_release.P2p.FileReader.{FileApi}
use fyles_release.P2p.Transfer.SendData.{LockedSendData}
use fyles_release.Core.Domain.{SendStatus, PendingFile}

-- The outcome of a file that leaves the tracker; an I/O error carries its text.
pub data FileOutcome : Type 0 where
  sent failed missing rejected : FileOutcome
  io_error : ℕ → FileOutcome

-- The texts of `reason`.
pub data ResetReason : Type 0 where
  disconnected remote_violation remote_internal_error remote_failure request_timeout : ResetReason
  transport_failure session_failure resend_failure could_not_send : ResetReason

-- The messages to the brain that the tracker does not wait for, of all that `NetworkNodeAction` has.
pub data NetworkNodeAction : Type 0 where
  file_sent file_failed file_missing file_rejected : FylesId → NetworkNodeAction
  file_io_error : FylesId → ℕ → NetworkNodeAction
  file_sending : FylesId → SendStatus → NetworkNodeAction
  -- The file, its status, its count of retries and the reason.
  file_send_reset : FylesId → SendStatus → Option ℕ → Option ResetReason → NetworkNodeAction

-- The calls of the methods of `FileTrackerPlugin`, but of the two that only get a connection error.
pub data PluginCall : Type 0 where
  pending_file_added : Bool → PluginCall
  pending_file_removed : Bool → Bool → PluginCall
  on_send_file interrupt_sending done_sending : PluginCall

pub data Effect : Type 0 where
  notify : NetworkNodeAction → Effect
  plugin : PluginCall → Effect

-- `OpenFileForReading` answers with a `FileMeta`, of which the tracker does not read the path.
pub record OpenFile (F : Type 0) : Type 0 where
  pub file_name : ℕ
  pub file : F

-- What the tracker calls and waits for: the session that sends, the brain, the disk and the random
-- ids. Each call may change the world outside. `none` is an error.
pub record Outside (W F : Type 0) : Type 0 where
  pub files : FileApi F
  pub metadata_len : F → Option ℕ
  pub send : W → PeerId → Option ContactId → FileRequest → Option ℕ × W
  pub send_idempotent : W → PeerId → Option ContactId → FileRequest → Option ℕ × W
  pub open_file : W → ℕ → FylesId → ℕ → Option (OpenFile F) × W
  pub is_contact_known : W → ContactId → Option Bool × W
  pub new_id : W → FylesId × W

-- The world outside, and what the tracker told the brain and the plugin so far, the last first.
pub record Scene (W : Type 0) : Type 0 where
  pub world : W
  pub log : List Effect

abbrev pub tell : {W : Type 0} → Effect → Scene W → Scene W
tell e s = record s { log = e ∷ s.log }

-- The queue `pending` with its first file first.
pub record PeerFiles (F : Type 0) : Type 0 where
  pub pending : List PendingFile
  pub sending : Option (LockedSendData ℕ F)

abbrev pub no_files : {F : Type 0} → PeerFiles F
no_files = record { pending = []; sending = none }

-- The entry of a peer after an operation, `none` if it is vacant.
pub record Run (W F : Type 0) : Type 0 where
  pub files : Option (PeerFiles F)
  pub scene : Scene W

-- A call that waits for a lock that its caller holds never returns. A panic is one of an `expect`.
pub data Handled {ℓ} (A : Type ℓ) : Type ℓ where
  returned : A → Handled A
  deadlocked panicked out_of_fuel : Handled A

module _ {W F : Type 0} (o : Outside W F) (peer : PeerId) where
  abbrev pub send_request : Option ContactId → FileRequest → Scene W → Option ℕ × Scene W
  send_request contact request s =
      let (res, w) = o.send s.world peer contact request in (res, record s { world = w })

  abbrev pub send_and_forget : Option ContactId → FileRequest → Scene W → Scene W
  send_and_forget contact request s = record s { world = (o.send s.world peer contact request).1 }
