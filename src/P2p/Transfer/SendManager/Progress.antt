-- ===== src/P2p/Transfer/SendManager/Progress.antt =====
-- `SendManager::mark_done` and `send_next_chunk`: acknowledgements in any order.
use mathlib.Core.Bool.{false≢true}
use fyles_release.Base.{
  ℕ, suc, ◌+◌, ◌%◌, ◌≤◌, ◌<◌, ◌≡◌, ◌≢◌, refl, sym, ◌∙◌, ap, Bool, false, Option, none, some, List,
  set, arith, dec_lt, ℕ_discrete, Eq,
}
use fyles_release.Base.Totals.{total}
use fyles_release.Base.Slots.{mark}
use fyles_release.Base.HashMap.{lookup, remove, lookup-remove}
use fyles_release.P2p.Types.{parallel_chunks, u64_mod}
use fyles_release.P2p.Transfer.SendManager.{SendManager, Slot, acknowledged, acknowledge, mark_done}
use fyles_release.P2p.Transfer.SendManager.Window.{Agrees, Agrees-mark}
use fyles_release.P2p.Transfer.SendManager.Shift.{shift_lem}

module _ {RequestId F : Type 0} ⦃e : Eq RequestId⦄ (sizes : ℕ → ℕ) (start : ℕ) where
  -- The manager knows which of the chunks that it sent are acknowledged: the progress is the start
  -- plus the bytes up to the first that is not, and each registered id belongs to one chunk in flight.
  pub record Tracks (acked : ℕ → Bool) (m : SendManager RequestId F) : Type 0 where
    pub agrees : Agrees sizes acked m.chunks_in_flight m.earliest_not_sent m.next_slot
    pub first : acked m.earliest_not_sent ≡ false
    pub counted : m.progress_bytes ≡ start + total sizes m.earliest_not_sent
    pub registered :
        (id : RequestId) (i : ℕ)
        → lookup id m.chunk_to_index ≡ some i
        → (i < m.next_slot) × (acked i ≡ false)
    pub one_id :
        (id id' : RequestId) (i : ℕ)
        → lookup id m.chunk_to_index ≡ some i
        → lookup id' m.chunk_to_index ≡ some i
        → id ≡ id'

  module _ (acked : ℕ → Bool) (m : SendManager RequestId F) (k : Tracks acked m) (id : RequestId)
      (idx : ℕ) (found : lookup id m.chunk_to_index ≡ some idx)
      (fits : start + total sizes m.next_slot < u64_mod) where
    in_flight : m.earliest_not_sent ≤ idx
    in_flight = elim (dec_lt idx m.earliest_not_sent) [
      | yes p ↦ absurd (false≢true (sym (k.registered id idx found).1 ∙ k.agrees.below idx p))
      | no p ↦ omega arith
    ]

    abbrev slots : List Slot
    slots = set m.chunks_in_flight (idx % parallel_chunks) (acknowledged (sizes idx))

    marked : Agrees sizes (mark acked idx) slots m.earliest_not_sent m.next_slot
    marked =
        Agrees-mark sizes acked m.chunks_in_flight m.earliest_not_sent m.next_slot k.agrees idx
          in_flight (k.registered id idx found).0

    others_registered :
        (j : RequestId) (i : ℕ)
        → lookup j (remove id m.chunk_to_index) ≡ some i
        → (i < m.next_slot) × (mark acked idx i ≡ false)
    others_registered j i h =
        let old : lookup j m.chunk_to_index ≡ some i =
          ground (arith, lookup-remove id j m.chunk_to_index) in
        let ne : id ≢ j = ground (arith, lookup-remove id j m.chunk_to_index, e.beq_iff id j) in
        elim (ℕ_discrete idx i) [
          | yes q ↦ absurd (ne (k.one_id id j i (found ∙ ap {B = Option ℕ} some q) old))
          | no q ↦ ((k.registered j i old).0, ground (arith, k.registered j i old))
        ]

    one_id_left :
        (j j' : RequestId) (i : ℕ)
        → lookup j (remove id m.chunk_to_index) ≡ some i
        → lookup j' (remove id m.chunk_to_index) ≡ some i
        → j ≡ j'
    one_id_left j j' i h h' = ground (
      arith,
      lookup-remove id j m.chunk_to_index,
      lookup-remove id j' m.chunk_to_index,
      k.one_id j j' i,
    )

    mark_done-eq : mark_done m id ≡ acknowledge m id idx (sizes idx)
    unfolding mark_done
    mark_done-eq = ground (
      arith,
      in_flight,
      k.registered id idx found,
      k.agrees.inside idx in_flight (k.registered id idx found).0,
    )

    abbrev left_over : SendManager RequestId F
    left_over = record m { chunk_to_index = remove id m.chunk_to_index; chunks_in_flight = slots }

    abbrev Marked : SendManager RequestId F → Type 0
    Marked m' =
        Tracks (mark acked idx) m'
        × (m'.next_slot ≡ m.next_slot)
        × (m'.file_size_bytes ≡ m.file_size_bytes)

    acknowledge_first :
        idx ≡ m.earliest_not_sent
        → (m' : SendManager RequestId F) × (acknowledge m id idx (sizes idx) ≡ some m') × Marked m'
    unfolding acknowledge
    acknowledge_first q =
        let (r, eq, stop) =
          shift_lem sizes (mark acked idx) start m.next_slot (suc parallel_chunks) slots
            m.progress_bytes idx (rw q (rw q at marked)) (k.counted ∙ rw q) fits
            (omega (arith, k.agrees.room)) in
        (
          record left_over {
            progress_bytes = r.0;
            chunks_in_flight = r.1;
            earliest_not_sent = r.2;
          },
          ground (arith, eq),
          (
            record {
              agrees = stop.agrees;
              first = stop.first;
              counted = stop.counted;
              registered = others_registered;
              one_id = one_id_left;
            },
            refl,
            refl,
          ),
        )

    acknowledge_later :
        idx ≢ m.earliest_not_sent
        → (acknowledge m id idx (sizes idx) ≡ some left_over) × Marked left_over
    unfolding acknowledge
    acknowledge_later q = (
      ground arith,
      (
        record {
          agrees = marked;
          first = ground (arith, k.first);
          counted = k.counted;
          registered = others_registered;
          one_id = one_id_left;
        },
        refl,
        refl,
      ),
    )

    -- The acknowledgement of a chunk in flight never panics, in whatever order it comes, for a
    -- manager that tracks its acknowledged chunks and whose bytes fit in a u64. It marks that chunk
    -- and no other, and the progress is again the bytes up to the first chunk that is not
    -- acknowledged.
    pub mark_done_lem :
        (m' : SendManager RequestId F) × (mark_done m id ≡ some m')
        × Tracks (mark acked idx) m'
        × (m'.next_slot ≡ m.next_slot)
        × (m'.file_size_bytes ≡ m.file_size_bytes)
    mark_done_lem = elim (ℕ_discrete idx m.earliest_not_sent) [
      | yes q ↦ let (m', eq, (t, n, f)) = acknowledge_first q in (m', mark_done-eq ∙ eq, t, n, f)
      | no q ↦ let (eq, (t, n, f)) = acknowledge_later q in (left_over, mark_done-eq ∙ eq, t, n, f)
    ]

  -- An id that is not registered makes the manager panic.
  pub mark_done_unknown :
      (m : SendManager RequestId F) (id : RequestId)
      → lookup id m.chunk_to_index ≡ none
      → mark_done m id ≡ none
  unfolding mark_done
  mark_done_unknown m id h = ground arith
