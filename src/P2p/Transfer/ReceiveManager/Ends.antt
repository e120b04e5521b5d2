-- ===== src/P2p/Transfer/ReceiveManager/Ends.antt =====
-- The loop of `ReceiveManager::store` ends, whatever the manager and the disk: each round empties a
-- slot.
use fyles_release.Base.{
  ℕ, zero, suc, ◌+◌, ◌%◌, ◌≤◌, ◌<◌, ◌≡◌, refl, Bool, true, false, Option, none, some, List, [], ◌∷◌,
  if◌then◌else◌, ◌==◌, ltb, leb, set, length, length-set, arith, Option-cases, inl, inr,
}
use fyles_release.P2p.Types.{Bytes, DataChunk, parallel_chunks, u32_mod}
use fyles_release.P2p.Transfer.ReceiveManager.{
  ReceiveManager, AppendApi, ReceiverRes, received, protocol_violation, io_error, chunk_at,
  write_chunk, drain, store,
}

-- How many slots hold a chunk.
filled : List (Option DataChunk) → ℕ
filled [] = 0
filled (none ∷ xs) = filled xs
filled (some c ∷ xs) = suc (filled xs)

filled-set :
    (xs : List (Option DataChunk)) (i : ℕ) (c : DataChunk)
    → chunk_at xs i ≡ some c
    → suc (filled (set xs i none)) ≡ filled xs
unfolding filled
filled-set [] i c h = ground arith
filled-set (none ∷ xs) zero c h = ground arith
filled-set (some d ∷ xs) zero c h = refl
filled-set (none ∷ xs) (suc i) c h = filled-set xs i c h
filled-set (some d ∷ xs) (suc i) c h = omega (arith, filled-set xs i c h)

filled-le-length : (xs : List (Option DataChunk)) → filled xs ≤ length xs
unfolding filled
filled-le-length [] = omega arith
filled-le-length (none ∷ xs) = omega (arith, filled-le-length xs)
filled-le-length (some c ∷ xs) = omega (arith, filled-le-length xs)

module _ {F D : Type 0} (api : AppendApi F) where
  abbrev pub Ends : Option (ReceiverRes × ReceiveManager F D) → Type 0
  Ends o = (r : ReceiverRes × ReceiveManager F D) × (o ≡ some r)

  Ends-if :
      (b : Bool) {x y : Option (ReceiverRes × ReceiveManager F D)}
      → Ends x
      → Ends y
      → Ends (if b then x else y)
  Ends-if true p q = p
  Ends-if false p q = q

  chunks_in_flight-write_chunk :
      (m : ReceiveManager F D) (content : Bytes)
      → (write_chunk api m content).1.chunks_in_flight
        ≡ set m.chunks_in_flight (m.earliest_not_received % parallel_chunks) none
  unfolding write_chunk
  chunks_in_flight-write_chunk m content = grind arith

  round :
      (m : ReceiveManager F D) (c : DataChunk) (fuel : ℕ)
      → chunk_at m.chunks_in_flight (m.earliest_not_received % parallel_chunks) ≡ some c
      → (w : ReceiverRes × ReceiveManager F D) → write_chunk api m c.content ≡ w
      → (r : ReceiverRes × ReceiveManager F D) → drain api fuel w.1 ≡ some r
      → Ends (drain api (suc fuel) m)
  unfolding drain
  round m c fuel q (received, m') v r e = (r, ground (arith, q, v, e))
  round m c fuel q (protocol_violation, m') v r e = ((protocol_violation, m'), ground (arith, q, v))
  round m c fuel q (io_error, m') v r e = ((io_error, m'), ground (arith, q, v))

  drain-Ends :
      (fuel : ℕ) (m : ReceiveManager F D)
      → filled m.chunks_in_flight < fuel
      → Ends (drain api fuel m)
  unfolding drain
  drain-Ends zero m h = absurd (omega arith)
  drain-Ends (suc fuel) m h =
      elim (Option-cases
        (chunk_at m.chunks_in_flight (m.earliest_not_received % parallel_chunks))) [
          | inl q ↦ ((received, m), ground (arith, q))
          | inr (c, q) ↦
              let w = write_chunk api m c.content in
              let less =
                filled-set m.chunks_in_flight (m.earliest_not_received % parallel_chunks) c q in
              let slots = chunks_in_flight-write_chunk m c.content in
              let (r, e) = drain-Ends fuel w.1 (rw slots (omega (arith, less))) in
              round m c fuel q w refl r e
        ]

  -- A call of `store` always returns.
  pub store-Ends : (m : ReceiveManager F D) (piece : DataChunk) → Ends (store api m piece)
  unfolding store
  store-Ends m piece =
      let slots = set m.chunks_in_flight (piece.idx % parallel_chunks) (some piece) in
      let (r, e) =
        drain-Ends (suc (length m.chunks_in_flight)) (record m { chunks_in_flight = slots })
          (omega (
            arith,
            filled-le-length slots,
            length-set m.chunks_in_flight (piece.idx % parallel_chunks) (some piece),
          )) in
      Ends-if (leb ((m.earliest_not_received + parallel_chunks) % u32_mod) piece.idx)
        ((protocol_violation, m), refl)
        (Ends-if (ltb piece.idx m.earliest_not_received) ((received, m), refl)
          (Ends-if (piece.idx % parallel_chunks == m.earliest_not_received % parallel_chunks) (r, e)
            ((received, record m { chunks_in_flight = slots }), refl)))
