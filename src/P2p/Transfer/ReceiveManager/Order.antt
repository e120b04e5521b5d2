-- ===== src/P2p/Transfer/ReceiveManager/Order.antt =====
-- `ReceiveManager::store`: chunks in any order, written in order.
use native.Mathlib.Nat.{mod-eq_of_lt}
use mathlib.Core.Bool.{false≢true}
use fyles_release.Base.{
  ℕ, suc, ◌+◌, ◌%◌, ◌≤◌, ◌<◌, ◌≡◌, refl, sym, ap, ◌∙◌, Bool, true, false, some, ◌++◌, set, arith,
  dec_lt, ℕ_discrete,
}
use fyles_release.Base.Slots.{mark, slots-ne}
use fyles_release.Base.Totals.{joined}
use fyles_release.P2p.Types.{Bytes, DataChunk, parallel_chunks, u32_mod, u64_mod}
use fyles_release.P2p.Transfer.ReceiveManager.{
  ReceiveManager, AppendApi, received, protocol_violation, drain, store,
}
use fyles_release.P2p.Transfer.ReceiveManager.Window.{numbered, Agrees-mark, Agrees-old}
use fyles_release.P2p.Transfer.ReceiveManager.Drain.{Appends, bytes_to, Settling, Tracks, drain_lem}

module _ {F D : Type 0} (api : AppendApi F) (disk : Appends api) (transfer : ℕ)
    (content : ℕ → Bytes) (start : ℕ) (already : Bytes) where
  module _ (got : ℕ → Bool) (count : ℕ) (m : ReceiveManager F D)
      (k : Tracks api disk transfer content start already got m) (idx : ℕ)
      (bounded : (i : ℕ) → count ≤ i → got i ≡ false)
      (fits : bytes_to content start count ≤ m.declared_file_size_bytes)
      (small : m.declared_file_size_bytes < u64_mod) (few : count + 8 < u32_mod) where
    abbrev the_chunk : DataChunk
    the_chunk = numbered transfer content idx

    abbrev stored : ReceiveManager F D
    stored = record m {
      chunks_in_flight = set m.chunks_in_flight (idx % parallel_chunks) (some the_chunk);
    }

    reached : m.earliest_not_received ≤ count
    reached = elim (dec_lt count m.earliest_not_received) [
      | yes p ↦
          absurd (false≢true (sym (bounded count (omega arith)) ∙ k.settling.agrees.below count p))
      | no p ↦ omega arith
    ]

    end_of_window :
        (m.earliest_not_received + parallel_chunks) % u32_mod
        ≡ m.earliest_not_received + parallel_chunks
    end_of_window = mod-eq_of_lt (omega (arith, reached))

    abbrev Took : ReceiveManager F D → Type 0
    Took m' =
        (store api m the_chunk ≡ some (received, m'))
        × Tracks api disk transfer content start already (mark got idx) m'
        × (m'.declared_file_size_bytes ≡ m.declared_file_size_bytes)

    store_old : idx < m.earliest_not_received → Took m
    unfolding store
    store_old h = (
      ground (arith, end_of_window),
      record {
        settling = record {
          agrees =
              Agrees-old transfer content got m.chunks_in_flight m.earliest_not_received
                k.settling.agrees idx h;
          counted = k.settling.counted;
          written = k.settling.written;
        };
        first = ground (arith, k.first);
      },
      refl,
    )

    settled :
        m.earliest_not_received ≤ idx
        → idx < m.earliest_not_received + parallel_chunks
        → Settling api disk transfer content start already (mark got idx) stored
    settled h l = record {
      agrees =
          Agrees-mark transfer content got m.chunks_in_flight m.earliest_not_received
            k.settling.agrees idx h l;
      counted = k.settling.counted;
      written = k.settling.written;
    }

    store_later :
        m.earliest_not_received < idx
        → idx < m.earliest_not_received + parallel_chunks
        → Took stored
    unfolding store
    store_later h l =
        let d =
          slots-ne parallel_chunks m.earliest_not_received idx m.earliest_not_received (omega arith)
            l (omega arith) (omega arith) (omega arith) in
        (
          ground (arith, end_of_window, d),
          record { settling = settled (omega arith) l; first = ground (arith, k.first) },
          refl,
        )

    store-eq_next :
        idx ≡ m.earliest_not_received
        → store api m the_chunk ≡ drain api (suc parallel_chunks) stored
    unfolding store
    store-eq_next q =
        rw (← k.settling.agrees.len) (ground (arith, end_of_window, k.settling.agrees.len))

    store_next : idx ≡ m.earliest_not_received → idx < count → (m' : ReceiveManager F D) × Took m'
    store_next q h =
        let (m', eq, t, d) =
          drain_lem api disk transfer content start already (mark got idx) count
            m.declared_file_size_bytes (λ i l. ground (arith, bounded i l)) fits small few
            (suc parallel_chunks) (m.earliest_not_received + parallel_chunks) stored
            (settled (omega arith) (omega arith)) refl
            (λ i l. ground (arith, k.settling.agrees.above i l)) (omega arith) (omega arith) in
        (m', (store-eq_next q ∙ eq, t, d))

    -- For a manager that tracks which chunks of a transfer arrived, on a disk that does not fail, a
    -- transfer that fits in its declared size, and chunk numbers that do not reach the end of a
    -- u32: a chunk of the transfer below the end of the window is always taken, in whatever order
    -- the chunks come and also when it comes twice, and the loop ends. Then the file holds, behind
    -- what it held before, all chunks up to the first that is missing, in order, and the progress
    -- counts exactly those bytes.
    pub store_lem :
        idx < count
        → idx < m.earliest_not_received + parallel_chunks
        → (m' : ReceiveManager F D) × (store api m (numbered transfer content idx)
            ≡ some (received, m'))
          × Tracks api disk transfer content start already (mark got idx) m'
          × (m'.declared_file_size_bytes ≡ m.declared_file_size_bytes)
    store_lem c l = elim (dec_lt idx m.earliest_not_received) [
      | yes p ↦ let (e, t, d) = store_old p in (m, e, t, d)
      | no p ↦ elim (ℕ_discrete idx m.earliest_not_received) [
        | yes q ↦ let (m', (e, t, d)) = store_next q c in (m', e, t, d)
        | no q ↦ let (e, t, d) = store_later (omega arith) l in (stored, e, t, d)
      ]
    ]

    -- A chunk behind the window is a protocol violation, and nothing changes.
    pub store_ahead :
        m.earliest_not_received + parallel_chunks ≤ idx
        → store api m (numbered transfer content idx) ≡ some (protocol_violation, m)
    unfolding store
    store_ahead l = ground (arith, end_of_window)

module _ {F D : Type 0} (api : AppendApi F) (disk : Appends api) (transfer : ℕ)
    (content : ℕ → Bytes) (start : ℕ) (already : Bytes) where
  -- Once all chunks arrived, the file is complete.
  pub all_arrived :
      (got : ℕ → Bool) (count : ℕ) (m : ReceiveManager F D)
      → Tracks api disk transfer content start already got m
      → ((i : ℕ) → i < count → got i ≡ true)
      → ((i : ℕ) → count ≤ i → got i ≡ false)
      → (m.earliest_not_received ≡ count)
        × (m.byte_progress ≡ bytes_to content start count)
        × (disk.contents m.file ≡ already ++ joined content count)
  all_arrived got count m k all none_behind =
      let low : count ≤ m.earliest_not_received = elim (dec_lt m.earliest_not_received count) [
        | yes p ↦ absurd (false≢true (sym k.first ∙ all m.earliest_not_received p))
        | no p ↦ omega arith
      ] in
      let high : m.earliest_not_received ≤ count = elim (dec_lt count m.earliest_not_received) [
        | yes p ↦
            absurd
              (false≢true (sym (none_behind count (omega arith)) ∙ k.settling.agrees.below count p))
        | no p ↦ omega arith
      ] in
      let here : m.earliest_not_received ≡ count = omega arith in
      (
        here,
        k.settling.counted ∙ ap (λ n. bytes_to content start n) here,
        k.settling.written ∙ ap (λ n. already ++ joined content n) here,
      )
