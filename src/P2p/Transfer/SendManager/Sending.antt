-- ===== src/P2p/Transfer/SendManager/Sending.antt =====
-- `SendManager::send_next_chunk`: what it sends, and how it is registered.
use native.Mathlib.Nat.{mod-eq_of_lt}
use fyles_release.Base.{
  ℕ, zero, suc, ◌+◌, ◌%◌, ◌<◌, ◌≡◌, refl, ◌∙◌, Bool, false, Option, none, some, length, length-set,
  replicate, if◌then◌else◌, arith, ℕ_discrete, Eq,
}
use fyles_release.Base.HashMap.{lookup, lookup-insert}
use fyles_release.P2p.Types.{parallel_chunks, u32_mod, DataChunk, Bytes}
use fyles_release.P2p.FileReader.{FileReader, FileApi, ReadRes, bytes_read, read_error}
use fyles_release.P2p.FileReader
use fyles_release.P2p.Transfer.SendManager.{
  SendManager, empty, pending, slot_at, record_sent, new, send_next_chunk, send_chunk, sent,
  is_ready,
}
use fyles_release.P2p.Transfer.SendManager.Window.{own, other}
use fyles_release.P2p.Transfer.SendManager.Progress.{Tracks}

slot_at-replicate : (n i : ℕ) → slot_at (replicate n empty) i ≡ empty
slot_at-replicate zero i = refl
slot_at-replicate (suc n) zero = refl
slot_at-replicate (suc n) (suc i) = slot_at-replicate n i

-- The message that carries the next chunk.
abbrev pub next_chunk : {RequestId F : Type 0} → SendManager RequestId F → Bytes → DataChunk
next_chunk m content = record {
  transfer_uuid = m.transfer_id;
  content = content;
  idx = m.next_slot;
}

module _ {RequestId F : Type 0} ⦃e : Eq RequestId⦄ (api : FileApi F) (sizes : ℕ → ℕ) where
  -- A new manager has sent nothing.
  pub new-Tracks :
      (transfer file_size : ℕ) (file : F)
      → Tracks sizes 0 (λ _. false) (new {RequestId = RequestId} api transfer file_size file)
  unfolding new lookup
  new-Tracks transfer file_size file = record {
    agrees = record {
      len = refl;
      order = omega arith;
      room = omega arith;
      below = λ i h. absurd (omega arith);
      above = λ i h. refl;
      inside = λ i h l. absurd (omega arith);
      outside = λ i h l. slot_at-replicate parallel_chunks (i % parallel_chunks);
    };
    first = refl;
    counted = refl;
    registered = λ id i h. cc;
    one_id = λ id id' i h. cc;
  }

  module _ (start : ℕ) (acked : ℕ → Bool) (m : SendManager RequestId F)
      (k : Tracks sizes start acked m) where
    record_sent-Tracks :
        (id : RequestId) (bytes : ℕ)
        → m.next_slot < m.earliest_not_sent + parallel_chunks
        → lookup id m.chunk_to_index ≡ none
        → sizes m.next_slot ≡ bytes
        → m.next_slot + 1 < u32_mod
        → Tracks sizes start acked (record_sent m id bytes)
    unfolding record_sent
    record_sent-Tracks id bytes r fresh size w =
        let next : (m.next_slot + 1) % u32_mod ≡ m.next_slot + 1 = mod-eq_of_lt w in
        rw next (record {
          agrees = record {
            len =
                length-set m.chunks_in_flight (m.next_slot % parallel_chunks) (pending bytes)
                ∙ k.agrees.len;
            order = omega (arith, k.agrees.order);
            room = omega arith;
            below = k.agrees.below;
            above = λ i h. k.agrees.above i (omega arith);
            inside = λ i h l. elim (ℕ_discrete m.next_slot i) [
              | yes q ↦ rw (← q) (
                  own sizes acked m.chunks_in_flight m.earliest_not_sent m.next_slot k.agrees
                    (pending bytes) m.next_slot
                  ∙ ground (arith, k.agrees.above m.next_slot (omega arith)))
              | no q ↦
                  other sizes acked m.chunks_in_flight m.earliest_not_sent m.next_slot k.agrees
                    (pending bytes) m.next_slot i k.agrees.order r h (omega arith) q
                  ∙ k.agrees.inside i h (omega arith)
            ];
            outside = λ i h l.
                other sizes acked m.chunks_in_flight m.earliest_not_sent m.next_slot k.agrees
                  (pending bytes) m.next_slot i k.agrees.order r (omega (arith, k.agrees.order)) l
                  (omega arith)
                ∙ k.agrees.outside i (omega arith) l;
          };
          first = k.first;
          counted = k.counted;
          registered = λ j i h. ground (
            arith,
            lookup-insert id j m.next_slot m.chunk_to_index,
            k.registered j i,
            k.agrees.above m.next_slot (omega arith),
          );
          one_id = λ j j' i h h'. ground (
            arith,
            lookup-insert id j m.next_slot m.chunk_to_index,
            lookup-insert id j' m.next_slot m.chunk_to_index,
            k.registered j m.next_slot,
            k.registered j' m.next_slot,
            e.beq_iff id j,
            e.beq_iff id j',
            k.one_id j j' i,
          );
        })

    -- The reader's side of a call does not touch the window.
    read_on-Tracks : (file : FileReader F) → Tracks sizes start acked (record m { file = file })
    read_on-Tracks file = record {
      agrees = k.agrees;
      first = k.first;
      counted = k.counted;
      registered = k.registered;
      one_id = k.one_id;
    }

  module _ (start : ℕ) (acked : ℕ → Bool) (m : SendManager RequestId F)
      (k : Tracks sizes start acked m) where
    send_next_chunk-eq :
        (send : DataChunk → Option RequestId) (content : Bytes) (id : RequestId)
        → m.next_slot < m.earliest_not_sent + parallel_chunks
        → (FileReader.read api m.file).0 ≡ some (bytes_read content)
        → send (next_chunk m content) ≡ some id
        → send_next_chunk api send m ≡ (
          sent id,
          record_sent (record m { file = (FileReader.read api m.file).1 }) id (length content),
        )
    unfolding send_next_chunk is_ready send_chunk
    send_next_chunk-eq send content id r eq ok = ground arith

    next_slot-record_sent :
        (m' : SendManager RequestId F) (id : RequestId) (bytes : ℕ)
        → m'.next_slot + 1 < u32_mod
        → (record_sent m' id bytes).next_slot ≡ m'.next_slot + 1
    unfolding record_sent
    next_slot-record_sent m' id bytes w = mod-eq_of_lt w

    lookup-record_sent :
        (m' : SendManager RequestId F) (id j : RequestId) (bytes : ℕ)
        → lookup j (record_sent m' id bytes).chunk_to_index
          ≡ (if e.beq id j then some m'.next_slot else lookup j m'.chunk_to_index)
    unfolding record_sent
    lookup-record_sent m' id j bytes = lookup-insert id j m'.next_slot m'.chunk_to_index

    -- For a manager that tracks its acknowledged chunks, with a free slot and whose next chunk
    -- number is below the end of a u32: if the reader gives bytes, as many as the sizes name for
    -- the next chunk, and the send of the next chunk, which carries exactly these bytes, the id of
    -- the transfer and the next number, succeeds with an id that is not registered, then the call
    -- gives this id, the manager tracks one chunk more, whose bytes are pending, and the id is
    -- registered for this chunk, while every other id keeps its chunk.
    pub send_next_chunk_sent :
        (send : DataChunk → Option RequestId) (content : Bytes) (id j : RequestId)
        → m.next_slot < m.earliest_not_sent + parallel_chunks
        → (FileReader.read api m.file).0 ≡ some (bytes_read content)
        → send (next_chunk m content) ≡ some id
        → lookup id m.chunk_to_index ≡ none
        → sizes m.next_slot ≡ length content
        → m.next_slot + 1 < u32_mod
        → let (res, m') = send_next_chunk api send m in
          (res ≡ sent id)
          × Tracks sizes start acked m'
          × (m'.next_slot ≡ m.next_slot + 1)
          × (lookup j m'.chunk_to_index
              ≡ (if e.beq id j then some m.next_slot else lookup j m.chunk_to_index))
    send_next_chunk_sent send content id j r eq ok fresh size w =
        let m1 = record m { file = (FileReader.read api m.file).1 } in
        let result : send_next_chunk api send m ≡ (sent id, record_sent m1 id (length content)) =
          send_next_chunk-eq send content id r eq ok in
        rw result (
          refl,
          record_sent-Tracks start acked m1
              (read_on-Tracks start acked m k (FileReader.read api m.file).1) id (length content) r
              fresh size w,
          next_slot-record_sent m1 id (length content) w,
          lookup-record_sent m1 id j (length content),
        )
