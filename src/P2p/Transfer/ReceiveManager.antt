-- ===== src/P2p/Transfer/ReceiveManager.antt =====
-- fyles_service/p2p/src/event_loop/filerequest/receive_manager.rs: `ReceiveManager`, which puts the
-- chunks of a transfer in order and writes them to the file. The file is tokio's and the drive
-- handler is another component's: both are parameters.
pub mod Window
pub mod Drain
pub mod Order
pub mod Arrivals
pub mod Ends
pub mod Restart
use fyles_release.Base.{
  ℕ, zero, suc, ◌+◌, ◌%◌, Bool, true, false, Option, none, some, List, [], ◌∷◌, map, if◌then◌else◌,
  ◌==◌, ltb, leb, get_elem?, set, replicate, length,
}
use fyles_release.P2p.Types.{
  FylesId, ContactId, Bytes, DataChunk, parallel_chunks, u32_mod, u64_mod,
}

-- `tokio::fs::File`, opened for appending: `write_all` fails or gives the file after it; the length
-- that `metadata` reports, if it can be read.
pub record AppendApi (F : Type 0) : Type 0 where
  pub write_all : F → Bytes → Option F
  pub metadata_len : F → Option ℕ

pub record ReceiveManager (F D : Type 0) : Type 0 where
  pub chunks_in_flight : List (Option DataChunk)
  pub earliest_not_received : ℕ
  pub declared_file_size_bytes : ℕ
  pub byte_progress : ℕ
  pub file : F
  pub file_name : ℕ
  pub transfer_id : FylesId
  pub filerequest_id : FylesId
  pub drive_handler : D
  pub contact_id : Option ContactId
  pub started_at_ms : ℕ

pub data ReceiverRes : Type 0 where
  received protocol_violation io_error : ReceiverRes

-- `vec[i]`; the code asserts that the index is in bounds.
abbrev pub chunk_at : List (Option DataChunk) → ℕ → Option DataChunk
chunk_at xs i = elim (get_elem? xs i) [ some c ↦ c | none ↦ none ]

module _ {F D : Type 0} where
  unfoldable pub new : D → F → ℕ → ℕ → FylesId → FylesId → Option ContactId → ℕ → ReceiveManager F D
  new drive_handler file target_file_size file_name transfer_id filerequest_id contact_id started =
      record {
        chunks_in_flight = replicate parallel_chunks none;
        earliest_not_received = 0;
        declared_file_size_bytes = target_file_size;
        byte_progress = 0;
        file = file;
        file_name = file_name;
        transfer_id = transfer_id;
        filerequest_id = filerequest_id;
        drive_handler = drive_handler;
        contact_id = contact_id;
        started_at_ms = started;
      }

  unfoldable pub reset : ReceiveManager F D → ReceiveManager F D
  reset m = record m {
    chunks_in_flight = map (λ slot. none) m.chunks_in_flight;
    earliest_not_received = 0;
  }

module _ {F D : Type 0} (api : AppendApi F) where
  -- The body of the loop of `store` for the chunk that it took from its slot.
  write_chunk : ReceiveManager F D → Bytes → ReceiverRes × ReceiveManager F D
  write_chunk m content =
      let taken = record m {
        chunks_in_flight = set m.chunks_in_flight (m.earliest_not_received % parallel_chunks) none;
      } in
      let counted = record taken { byte_progress = (m.byte_progress + length content) % u64_mod } in
      if ltb m.declared_file_size_bytes ((length content + m.byte_progress) % u64_mod)
      then (protocol_violation, taken)
      else (elim (api.write_all m.file content) [
        | none ↦ (io_error, counted)
        | some file ↦ (
          received,
          record counted {
            file = file;
            earliest_not_received = (m.earliest_not_received + 1) % u32_mod;
          },
        )
      ])

  -- `while let Some(chunk) = slot.take()`, on fuel; `none` is a loop that does not end.
  unfoldable pub drain : ℕ → ReceiveManager F D → Option (ReceiverRes × ReceiveManager F D)
  unfolding write_chunk
  drain zero m = none
  drain (suc fuel) m =
      elim (chunk_at m.chunks_in_flight (m.earliest_not_received % parallel_chunks)) [
        | none ↦ some (received, m)
        | some chunk ↦
            let (res, m') = write_chunk m chunk.content in
            let rest = drain fuel m' in
            elim res [
              | received ↦ rest
              | protocol_violation ↦ some (protocol_violation, m')
              | io_error ↦ some (io_error, m')
            ]
      ]

  unfoldable pub store : ReceiveManager F D → DataChunk → Option (ReceiverRes × ReceiveManager F D)
  store m chunk =
      let real_index = chunk.idx % parallel_chunks in
      let stored = record m { chunks_in_flight = set m.chunks_in_flight real_index (some chunk) } in
      if leb ((m.earliest_not_received + parallel_chunks) % u32_mod) chunk.idx
      then some (protocol_violation, m)
      else (if ltb chunk.idx m.earliest_not_received
          then some (received, m)
          else (if real_index == m.earliest_not_received % parallel_chunks
              then drain (suc (length m.chunks_in_flight)) stored
              else some (received, stored)))
