-- ===== src/P2p/Transfer/World.antt =====
-- What surrounds the receiver of fyles_service/p2p/src/event_loop/filerequest/receive_manager.rs: the
-- messages to the brain, and the answers of the brain, the drive handler, the clock and the disk.
use fyles_release.Base.{ℕ, Bool, Option, nat_eq}
use fyles_release.P2p.Types.{FylesId, ContactId, PeerId, FileResponse}
use fyles_release.P2p.Transfer.ReceiveManager.{AppendApi}

-- What the name of a partial file is made of: the start, the transfer, the peer and the contact.
pub record PartName : Type 0 where
  pub started_at_ms : ℕ
  pub transfer : FylesId
  pub peer : PeerId
  pub contact : Option ContactId

pub data ReceiveStatus : Type 0 where
  receiving interrupted completed failed : ReceiveStatus
  unknown : ℕ → ReceiveStatus

pub record ContinueResponse (D : Type 0) : Type 0 where
  pub drive_handler : D
  pub file_name : ℕ
  pub file_size_bytes : ℕ
  pub started_at_ms : ℕ

pub record CreateIncomingFile : Type 0 where
  pub filerequest_id : FylesId
  pub transfer_id : FylesId
  pub contact_id : Option ContactId
  pub peer_id : PeerId
  pub file_name : ℕ
  pub file_size_bytes : ℕ
  pub started_at_ms : ℕ

-- The messages to the brain that the receiver sends, of all that `NetworkNodeAction` has.
pub data BrainMessage : Type 0 where
  request_file_drop : FylesId → Option ContactId → BrainMessage
  create_incoming_file : CreateIncomingFile → BrainMessage
  request_continuation : FylesId → Option ContactId → PeerId → FylesId → BrainMessage
  update_received_file_status : FylesId → ReceiveStatus → ℕ → BrainMessage
  store_received_file : FylesId → ℕ → ℕ → BrainMessage

-- The answers of the world outside this file during one message, and the times of its calls of the
-- clock: at the first `entry`, at the next use of the map, and at the last.
pub record World (F D : Type 0) : Type 0 where
  pub append : AppendApi F
  pub file_drop : Option D
  pub continuation : Option (ContinueResponse D)
  pub created : Bool
  pub stored : Bool
  pub unix_epoch_millis : Option ℕ
  pub partial_file : D → PartName → Option F
  pub remove_partial : D → PartName → Bool
  pub finalize_partial : D → PartName → ℕ → Option ℕ
  pub random_response : FileResponse
  pub entered : ℕ
  pub used : ℕ
  pub ended : ℕ
