-- ===== src/P2p/Types.antt =====
-- fyles_service/p2p/src/types.rs: the messages of a file transfer. Identifiers, names and error
-- texts are only compared or passed on, so they are numbers; a byte is a number.
use fyles_release.Base.{ℕ, List, Option, ◌^◌}

abbrev pub FylesId : Type 0
FylesId = ℕ

abbrev pub ContactId : Type 0
ContactId = ℕ

abbrev pub PeerId : Type 0
PeerId = ℕ

abbrev pub Bytes : Type 0
Bytes = List ℕ

-- The numbers of values of a `u32` and of a `u64`.
abbrev pub u32_mod : ℕ
u32_mod = 2 ^ 32

abbrev pub u64_mod : ℕ
u64_mod = 2 ^ 64

-- `PARALLEL_CHUNKS`.
abbrev pub parallel_chunks : ℕ
parallel_chunks = 8

pub record DataChunk : Type 0 where
  pub transfer_uuid : FylesId
  pub content : Bytes
  pub idx : ℕ

pub data FileRequest : Type 0 where
  -- The file request, the file name, the file's size and the transfer.
  new_transfer : FylesId → ℕ → ℕ → FylesId → FileRequest
  continue_transfer : FylesId → FylesId → FileRequest
  abort_transfer : Option FylesId → FileRequest
  chunk : DataChunk → FileRequest
  done : FylesId → FileRequest
  protocol_violation : Option FylesId → FileRequest

pub data FileResponse : Type 0 where
  accept_new_transfer reject_new_transfer : FileResponse
  accept_continue_transfer : ℕ → FileResponse
  restart_continue_transfer reject_continue_transfer : FileResponse
  confirm_chunk reject_chunk confirm_abort confirm_done reject_done : FileResponse
  acknowledge_protocol_violation protocol_violation internal_error : FileResponse
