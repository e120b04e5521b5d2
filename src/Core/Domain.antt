-- ===== src/Core/Domain.antt =====
-- fyles_service/core/src/core/domain_models.rs: a file that waits to be sent, and its status with the
-- tags and columns under which the database keeps it.
pub mod Columns
use Prim.Native.String.{String}
use fyles_release.Base.{ℕ, Option, none, some, List}
use fyles_release.P2p.Types.{FylesId, ContactId}

pub record TransferData : Type 0 where
  pub progress_bytes : ℕ
  pub file_size_bytes : ℕ
  pub transfer_id : FylesId

pub data InProgressSendStatus : Type 0 where
  prepared sending interrupted pending_sent : InProgressSendStatus

-- `InProgress` is written out as the two arguments of its constructor.
pub data SendStatus : Type 0 where
  pending : SendStatus
  in_progress : InProgressSendStatus → TransferData → SendStatus
  sent rejected failed : SendStatus
  unknown : String → SendStatus

abbrev pub transfer_data : SendStatus → Option TransferData
transfer_data pending = none
transfer_data (in_progress status t) = some t
transfer_data sent = none
transfer_data rejected = none
transfer_data failed = none
transfer_data (unknown tag) = none

pub record PendingFile : Type 0 where
  pub id : FylesId
  pub contact_id : ContactId
  pub file_path : ℕ
  pub retry_count : ℕ
  pub target_filerequest_id : FylesId
  pub status : SendStatus
  pub display_name : Option ℕ
  pub interruption_reasons : List ℕ
