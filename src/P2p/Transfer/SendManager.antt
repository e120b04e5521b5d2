-- ===== src/P2p/Transfer/SendManager.antt =====
-- fyles_service/p2p/src/event_loop/filerequest/send_manager.rs: the sender's window of chunks that
-- are in flight. The map from request ids to chunk numbers is generic in the id.
pub mod Window
pub mod Shift
pub mod Progress
pub mod Sending
pub mod Bounds
use fyles_release.Base.{
  ℕ, zero, suc, ◌+◌, ◌-◌, ◌%◌, Bool, true, false, not, ◌&&◌, ◌||◌, Option, none, some, List, [],
  ◌∷◌, if◌then◌else◌, ◌==◌, ltb, leb, get_elem?, set, replicate, any, length, Eq,
}
use fyles_release.Base.HashMap.{HashMap, lookup, insert, remove}
use fyles_release.P2p.Types.{FylesId, Bytes, DataChunk, parallel_chunks, u32_mod, u64_mod}
use fyles_release.P2p.FileReader.{FileReader, FileApi, ReadRes, bytes_read, read_error}
use fyles_release.P2p.FileReader

pub data Slot : Type 0 where
  empty : Slot
  pending acknowledged : ℕ → Slot

pub record SendManager (RequestId F : Type 0) : Type 0 where
  pub chunk_to_index : HashMap RequestId ℕ
  pub chunks_in_flight : List Slot
  pub earliest_not_sent : ℕ
  pub next_slot : ℕ
  pub file : FileReader F
  pub progress_bytes : ℕ
  pub file_size_bytes : ℕ
  pub transfer_id : FylesId

pub data SendRes (RequestId : Type 0) : Type 0 where
  not_ready : SendRes RequestId
  sent : RequestId → SendRes RequestId
  done : SendRes RequestId
  io_error : ℕ → SendRes RequestId
  interrupt : SendRes RequestId

-- `vec[i]`; the code asserts that the index is in bounds.
abbrev pub slot_at : List Slot → ℕ → Slot
slot_at xs i = elim (get_elem? xs i) [ some s ↦ s | none ↦ empty ]

abbrev is_pending : Slot → Bool
is_pending empty = false
is_pending (pending n) = true
is_pending (acknowledged n) = false

module _ {RequestId F : Type 0} (api : FileApi F) where
  unfoldable pub new : FylesId → ℕ → F → SendManager RequestId F
  new transfer_id file_size_bytes file = record {
    chunk_to_index = [];
    chunks_in_flight = replicate parallel_chunks empty;
    earliest_not_sent = 0;
    next_slot = 0;
    file = FileReader.new api file;
    progress_bytes = 0;
    file_size_bytes = file_size_bytes;
    transfer_id = transfer_id;
  }

  unfoldable pub set_progress : SendManager RequestId F → ℕ → SendManager RequestId F
  set_progress m offset = record m {
    progress_bytes = offset;
    file = FileReader.set_progress api m.file offset;
  }

-- The loop of `mark_done` over the acknowledged slots, on fuel: the progress, the slots and the
-- first chunk that is not acknowledged.
unfoldable pub shift : ℕ → ℕ → List Slot → ℕ → ℕ → Option (ℕ × List Slot × ℕ)
shift zero next slots progress earliest = none
shift (suc fuel) next slots progress earliest = elim (slot_at slots (earliest % parallel_chunks)) [
  | acknowledged bytes ↦
      let rest =
        shift fuel next (set slots (earliest % parallel_chunks) empty)
          ((progress + bytes) % u64_mod) (earliest + 1) in
      if ltb earliest next then rest else some (progress, slots, earliest)
  | empty ↦ some (progress, slots, earliest)
  | pending bytes ↦ some (progress, slots, earliest)
]

module _ {RequestId F : Type 0} where
  -- `next_slot` is never behind `earliest_not_sent`, so the subtraction does not wrap.
  unfoldable pub is_ready : SendManager RequestId F → Bool
  is_ready m = ltb (m.next_slot - m.earliest_not_sent) parallel_chunks

module _ {RequestId F : Type 0} ⦃e : Eq RequestId⦄ where
  -- `none` is a panic: of an `expect`, an `assert!` or `panic!`.
  unfoldable pub acknowledge :
      SendManager RequestId F → RequestId → ℕ → ℕ → Option (SendManager RequestId F)
  acknowledge m id idx bytes =
      let slots = set m.chunks_in_flight (idx % parallel_chunks) (acknowledged bytes) in
      let m' = record m { chunk_to_index = remove id m.chunk_to_index; chunks_in_flight = slots } in
      if idx == m.earliest_not_sent
      then (elim (shift (suc parallel_chunks) m.next_slot slots m.progress_bytes idx) [
        | none ↦ none
        | some (progress, slots', earliest) ↦ some (record m' {
          progress_bytes = progress;
          chunks_in_flight = slots';
          earliest_not_sent = earliest;
        })
      ])
      else some m'

  -- `receive_ack` only calls this.
  unfoldable pub mark_done : SendManager RequestId F → RequestId → Option (SendManager RequestId F)
  mark_done m id = elim (lookup id m.chunk_to_index) [
    | none ↦ none
    | some idx ↦
        if leb m.earliest_not_sent idx && leb idx m.next_slot
        then (elim (slot_at m.chunks_in_flight (idx % parallel_chunks)) [
          | pending bytes ↦ acknowledge m id idx bytes
          | empty ↦ none
          | acknowledged bytes ↦ none
        ])
        else none
  ]

  -- The state after the reader gave bytes and `send` returned an id.
  unfoldable pub record_sent : SendManager RequestId F → RequestId → ℕ → SendManager RequestId F
  record_sent m id num_bytes = record m {
    chunk_to_index = insert id m.next_slot m.chunk_to_index;
    chunks_in_flight = set m.chunks_in_flight (m.next_slot % parallel_chunks) (pending num_bytes);
    next_slot = (m.next_slot + 1) % u32_mod;
  }

  send_chunk :
      (DataChunk → Option RequestId)
      → SendManager RequestId F
      → Bytes
      → SendRes RequestId × SendManager RequestId F
  unfolding record_sent
  send_chunk send m content =
      let chunk : DataChunk = record {
        transfer_uuid = m.transfer_id;
        content = content;
        idx = m.next_slot;
      } in
      elim (send chunk) [
        | none ↦ (interrupt, m)
        | some id ↦ (sent id, record_sent m id (length content))
      ]

  -- `send` returns the request's id, or fails.
  unfoldable pub send_next_chunk :
      FileApi F
      → (DataChunk → Option RequestId)
      → SendManager RequestId F
      → SendRes RequestId × SendManager RequestId F
  unfolding send_chunk
  send_next_chunk api send m =
      let (out, file) = FileReader.read api m.file in
      let m' = record m { file = file } in
      if is_ready m
      then (elim out [
        | none ↦
            if m.earliest_not_sent == m.next_slot && not (any is_pending m.chunks_in_flight)
            then (done, m')
            else (not_ready, m')
        | some res ↦ elim res [
          | read_error e ↦ (io_error e, m')
          | bytes_read content ↦ send_chunk send m' content
        ]
      ])
      else (not_ready, m)
