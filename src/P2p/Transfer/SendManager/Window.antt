-- ===== src/P2p/Transfer/SendManager/Window.antt =====
-- The sender's window against the set of the acknowledged chunks.
use fyles_release.Base.{
  ℕ, ◌+◌, ◌%◌, ◌≤◌, ◌<◌, ◌≡◌, ◌≢◌, ◌∙◌, Bool, true, false, List, if◌then◌else◌, set, length,
  length-set, arith, get_elem?-set_self, get_elem?-set_ne, dec_lt, ℕ_discrete,
}
use fyles_release.Base.Slots.{mark, slots-ne, slot_again}
use fyles_release.P2p.Types.{parallel_chunks}
use fyles_release.P2p.Transfer.SendManager.{Slot, empty, pending, acknowledged, slot_at}

pub slot_at-set_self :
    (xs : List Slot) (i : ℕ) (v : Slot) → i < length xs → slot_at (set xs i v) i ≡ v
slot_at-set_self xs i v h = ground (arith, get_elem?-set_self xs i v h)

pub slot_at-set_ne :
    (xs : List Slot) (i j : ℕ) (v : Slot) → i ≢ j → slot_at (set xs i v) j ≡ slot_at xs j
slot_at-set_ne xs i j v h = ground (arith, get_elem?-set_ne xs i j v h)

module _ (sizes : ℕ → ℕ) where
  abbrev pub sent_slot : (ℕ → Bool) → ℕ → Slot
  sent_slot acked i = if acked i then acknowledged (sizes i) else pending (sizes i)

  -- The slots hold what became of the chunks from `earliest` to `next`. All chunks before are
  -- acknowledged, and none after.
  pub record Agrees (acked : ℕ → Bool) (slots : List Slot) (earliest next : ℕ) : Type 0 where
    pub len : length slots ≡ parallel_chunks
    pub order : earliest ≤ next
    pub room : next ≤ earliest + parallel_chunks
    pub below : (i : ℕ) → i < earliest → acked i ≡ true
    pub above : (i : ℕ) → next ≤ i → acked i ≡ false
    pub inside :
        (i : ℕ) → earliest ≤ i → i < next → slot_at slots (i % parallel_chunks) ≡ sent_slot acked i
    pub outside :
        (i : ℕ)
        → next ≤ i
        → i < earliest + parallel_chunks
        → slot_at slots (i % parallel_chunks) ≡ empty

  module _ (acked : ℕ → Bool) (slots : List Slot) (earliest next : ℕ)
      (a : Agrees acked slots earliest next) where
    -- Writing the slot of one chunk leaves those of the others.
    pub other :
        (v : Slot) (i j : ℕ)
        → earliest ≤ i
        → i < earliest + parallel_chunks
        → earliest ≤ j
        → j < earliest + parallel_chunks
        → i ≢ j
        → slot_at (set slots (i % parallel_chunks) v) (j % parallel_chunks)
          ≡ slot_at slots (j % parallel_chunks)
    other v i j h k l m d =
        slot_at-set_ne slots (i % parallel_chunks) (j % parallel_chunks) v
          (slots-ne parallel_chunks earliest i j h k l m d)

    pub own :
        (v : Slot) (i : ℕ) → slot_at (set slots (i % parallel_chunks) v) (i % parallel_chunks) ≡ v
    own v i = slot_at-set_self slots (i % parallel_chunks) v (omega (arith, a.len))

    pub Agrees-suc :
        acked earliest ≡ true
        → earliest < next
        → Agrees acked (set slots (earliest % parallel_chunks) empty) (earliest + 1) next
    Agrees-suc h l = record {
      len = length-set slots (earliest % parallel_chunks) empty ∙ a.len;
      order = omega arith;
      room = omega (arith, a.room);
      below =
          λ i k. elim (ℕ_discrete i earliest) [ yes e ↦ rw e h | no d ↦ a.below i (omega arith) ];
      above = a.above;
      inside = λ i k m.
          other empty earliest i (omega arith) (omega arith) (omega arith) (omega (arith, a.room))
            (omega arith)
          ∙ a.inside i (omega arith) m;
      outside = λ i k m. elim (dec_lt i (earliest + parallel_chunks)) [
        | yes p ↦
            other empty earliest i (omega arith) (omega arith) (omega arith) p (omega arith)
            ∙ a.outside i k p
        | no p ↦ rw (← slot_again parallel_chunks earliest i (omega arith)) (own empty earliest)
      ];
    }

    pub Agrees-mark :
        (idx : ℕ)
        → earliest ≤ idx
        → idx < next
        → Agrees
            (mark acked idx)
            (set slots (idx % parallel_chunks) (acknowledged (sizes idx)))
            earliest
            next
    Agrees-mark idx h l = record {
      len = length-set slots (idx % parallel_chunks) (acknowledged (sizes idx)) ∙ a.len;
      order = a.order;
      room = a.room;
      below = λ i k. ground (arith, a.below i k);
      above = λ i k. ground (arith, a.above i k);
      inside = λ i k m. elim (ℕ_discrete idx i) [
        | yes e ↦ rw (← e) (own (acknowledged (sizes idx)) idx ∙ ground arith)
        | no d ↦
            other (acknowledged (sizes idx)) idx i h (omega (arith, a.room)) k
              (omega (arith, a.room)) d
            ∙ a.inside i k m
            ∙ ground arith
      ];
      outside = λ i k m.
          other (acknowledged (sizes idx)) idx i h (omega (arith, a.room)) (omega (arith, a.order))
            m (omega arith)
          ∙ a.outside i k m;
    }
