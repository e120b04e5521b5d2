-- ===== src/P2p/Transfer/SendManager/Bounds.antt =====
-- fyles_service/p2p/src/event_loop/filerequest/send_manager.rs: the numbers of the chunks stay in order
-- and in the range of a `u32`.
use fyles_release.Base.{
  ℕ, zero, suc, ◌+◌, ◌-◌, ◌%◌, ◌≤◌, ◌<◌, ◌≡◌, ◌⊎◌, refl, Option, some, List, Option-cases, inl, inr,
  nat_eq, arith, set,
}
use fyles_release.Base.HashMap.{lookup}
use fyles_release.P2p.Types.{DataChunk, parallel_chunks, u32_mod, u64_mod}
use fyles_release.P2p.FileReader.{FileApi}
use fyles_release.P2p.Transfer.SendManager.{
  SendManager, Slot, empty, pending, acknowledged, slot_at, sent, is_ready, send_chunk, record_sent,
  send_next_chunk, shift, acknowledge, mark_done,
}

-- The chunks of one more window can be numbered.
pub record IsBounded {F : Type 0} (m : SendManager ℕ F) : Type 0 where
  pub order : m.earliest_not_sent ≤ m.next_slot
  pub room : m.next_slot + parallel_chunks < u32_mod

-- A chunk is sent only if the window has room, and takes the next slot.
pub send_next_chunk-sent :
    {F : Type 0} (api : FileApi F) (send : DataChunk → Option ℕ) (m : SendManager ℕ F) (id : ℕ)
    → (send_next_chunk api send m).0 ≡ sent id
    → (m.next_slot - m.earliest_not_sent < parallel_chunks)
      × ((send_next_chunk api send m).1.next_slot ≡ (m.next_slot + 1) % u32_mod)
      × ((send_next_chunk api send m).1.earliest_not_sent ≡ m.earliest_not_sent)
unfolding send_next_chunk is_ready send_chunk record_sent
send_next_chunk-sent api send m id h = ground (arith, h)

Slot-cases :
    (s : Slot)
    → ((bytes : ℕ) × (s ≡ acknowledged bytes)) ⊎ ((s ≡ empty) ⊎ ((bytes : ℕ) × (s ≡ pending bytes)))
Slot-cases (acknowledged bytes) = inl (bytes, refl)
Slot-cases empty = inr (inl refl)
Slot-cases (pending bytes) = inr (inr (bytes, refl))

-- Shifting over the acknowledged slots stops at the next slot at the latest.
shift_order :
    (fuel next : ℕ) (slots : List Slot) (progress earliest progress' : ℕ) (slots' : List Slot)
    (earliest' : ℕ)
    → shift fuel next slots progress earliest ≡ some (progress', slots', earliest')
    → earliest ≤ next
    → earliest' ≤ next
unfolding shift
shift_order zero next slots progress earliest progress' slots' earliest' h le = cc
shift_order (suc fuel) next slots progress earliest progress' slots' earliest' h le =
    elim (Slot-cases (slot_at slots (earliest % parallel_chunks))) [
      | inl (bytes, e) ↦ ground (
        arith,
        h,
        e,
        shift_order fuel next (set slots (earliest % parallel_chunks) empty)
            ((progress + bytes) % u64_mod) (earliest + 1) progress' slots' earliest',
      )
      | inr e ↦ ground (arith, h, e)
    ]

acknowledge_order :
    {F : Type 0} (m m' : SendManager ℕ F) (id idx bytes : ℕ)
    → acknowledge m id idx bytes ≡ some m'
    → idx ≤ m.next_slot
    → m.earliest_not_sent ≤ m.next_slot
    → (m'.next_slot ≡ m.next_slot) × (m'.earliest_not_sent ≤ m.next_slot)
unfolding acknowledge
acknowledge_order m m' id idx bytes h le order =
    let slots = set m.chunks_in_flight (idx % parallel_chunks) (acknowledged bytes) in
    elim (Option-cases (shift (suc parallel_chunks) m.next_slot slots m.progress_bytes idx)) [
      | inl e ↦ ground (arith, h, e)
      | inr (r, e) ↦ ground (
        arith,
        h,
        e,
        shift_order (suc parallel_chunks) m.next_slot slots m.progress_bytes idx r.0 r.1 r.2 e le,
      )
    ]

mark_done_order :
    {F : Type 0} (m m' : SendManager ℕ F) (id : ℕ)
    → mark_done m id ≡ some m'
    → m.earliest_not_sent ≤ m.next_slot
    → (m'.next_slot ≡ m.next_slot) × (m'.earliest_not_sent ≤ m.next_slot)
unfolding mark_done
mark_done_order m m' id h order = elim (Option-cases (lookup id m.chunk_to_index)) [
  | inl e ↦ ground (arith, h, e)
  | inr (idx, e) ↦ elim (Slot-cases (slot_at m.chunks_in_flight (idx % parallel_chunks))) [
    | inl (bytes, q) ↦ ground (arith, h, e, q)
    | inr (inl q) ↦ ground (arith, h, e, q)
    | inr (inr (bytes, q)) ↦ ground (arith, h, e, q, acknowledge_order m m' id idx bytes)
  ]
]

pub mark_done-IsBounded :
    {F : Type 0} (m m' : SendManager ℕ F) (id : ℕ)
    → mark_done m id ≡ some m'
    → IsBounded m
    → IsBounded m'
mark_done-IsBounded m m' id h b =
    let (next, order) = mark_done_order m m' id h b.order in
    record { order = omega (arith, next, order); room = omega (arith, next, b.room) }
