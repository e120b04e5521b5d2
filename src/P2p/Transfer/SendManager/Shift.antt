-- ===== src/P2p/Transfer/SendManager/Shift.antt =====
-- The loop of `SendManager::mark_done` over the acknowledged slots.
use native.Mathlib.Nat.{mod-eq_of_lt}
use fyles_release.Base.{
  ℕ, zero, suc, ◌+◌, ◌%◌, ◌≤◌, ◌<◌, ◌≡◌, ◌∙◌, Bool, false, some, List, set, arith, inl, inr,
  Bool-cases, dec_lt,
}
use fyles_release.Base.Totals.{total, total_mono, total-add_one}
use fyles_release.P2p.Types.{parallel_chunks, u64_mod}
use fyles_release.P2p.Transfer.SendManager.{Slot, empty, pending, acknowledged, slot_at, shift}
use fyles_release.P2p.Transfer.SendManager.Window.{Agrees, Agrees-suc}

shift-eq_acked :
    (fuel next : ℕ) (slots : List Slot) (progress earliest bytes : ℕ)
    → slot_at slots (earliest % parallel_chunks) ≡ acknowledged bytes
    → earliest < next
    → shift (suc fuel) next slots progress earliest
      ≡ shift fuel next
          (set slots (earliest % parallel_chunks) empty)
          ((progress + bytes) % u64_mod)
          (earliest + 1)
unfolding shift
shift-eq_acked fuel next slots progress earliest bytes s l = ground arith

shift-eq_pending :
    (fuel next : ℕ) (slots : List Slot) (progress earliest bytes : ℕ)
    → slot_at slots (earliest % parallel_chunks) ≡ pending bytes
    → shift (suc fuel) next slots progress earliest ≡ some (progress, slots, earliest)
unfolding shift
shift-eq_pending fuel next slots progress earliest bytes s = ground arith

shift-eq_end :
    (fuel next : ℕ) (slots : List Slot) (progress earliest : ℕ)
    → next ≤ earliest
    → shift (suc fuel) next slots progress earliest ≡ some (progress, slots, earliest)
unfolding shift
shift-eq_end fuel next slots progress earliest s = ground arith

module _ (sizes : ℕ → ℕ) (acked : ℕ → Bool) (start next : ℕ) where
  -- Where the loop stops: at the first chunk that is not acknowledged, with the progress up to it.
  pub record Stopped (r : ℕ × List Slot × ℕ) : Type 0 where
    pub agrees : Agrees sizes acked r.1 r.2 next
    pub first : acked r.2 ≡ false
    pub counted : r.0 ≡ start + total sizes r.2

  pub shift_lem :
      (fuel : ℕ) (slots : List Slot) (progress earliest : ℕ)
      → Agrees sizes acked slots earliest next
      → progress ≡ start + total sizes earliest
      → start + total sizes next < u64_mod
      → next < earliest + fuel
      → (r : ℕ × List Slot × ℕ) × (shift fuel next slots progress earliest ≡ some r) × Stopped r
  shift_lem zero slots progress earliest a c fits m = absurd (omega (arith, a.order))
  shift_lem (suc fuel) slots progress earliest a c fits m = elim (dec_lt earliest next) [
    | yes l ↦ elim (Bool-cases (acked earliest)) [
      | inl yet ↦
          let (r, e, stop) =
            shift_lem fuel (set slots (earliest % parallel_chunks) empty)
              ((progress + sizes earliest) % u64_mod) (earliest + 1)
              (Agrees-suc sizes acked slots earliest next a yet l)
              (mod-eq_of_lt (
                  omega (
                    arith,
                    total-add_one sizes earliest,
                    total_mono sizes (earliest + 1) next (omega arith),
                  ))
                ∙ omega (arith, total-add_one sizes earliest))
              fits (omega arith) in
          (
            r,
            shift-eq_acked fuel next slots progress earliest (sizes earliest)
                  (a.inside earliest (omega arith) l ∙ rw yet) l
                ∙ e,
            stop,
          )
      | inr no_ack ↦ (
        (progress, slots, earliest),
        shift-eq_pending fuel next slots progress earliest (sizes earliest)
            (a.inside earliest (omega arith) l ∙ rw no_ack),
        record { agrees = a; first = no_ack; counted = c },
      )
    ]
    | no l ↦ (
      (progress, slots, earliest),
      shift-eq_end fuel next slots progress earliest (omega arith),
      record { agrees = a; first = a.above earliest (omega arith); counted = c },
    )
  ]
