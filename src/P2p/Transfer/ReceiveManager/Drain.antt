-- ===== src/P2p/Transfer/ReceiveManager/Drain.antt =====
-- The loop of `ReceiveManager::store` on a disk that does not fail.
use native.Mathlib.Nat.{mod-eq_of_lt}
use mathlib.Core.List.{append_assoc}
use mathlib.Core.Bool.{false≢true}
use fyles_release.Base.{
  ℕ, zero, suc, ◌+◌, ◌%◌, ◌≤◌, ◌<◌, ◌≡◌, refl, sym, ◌∙◌, ap, Bool, true, false, none, some, ◌++◌,
  set, length, arith, inl, inr, Bool-cases, dec_lt,
}
use fyles_release.Base.Totals.{total, total_mono, total-add_one, joined, joined-add_one}
use fyles_release.P2p.Types.{Bytes, DataChunk, parallel_chunks, u32_mod, u64_mod}
use fyles_release.P2p.Transfer.ReceiveManager.{
  ReceiveManager, AppendApi, received, chunk_at, drain, write_chunk,
}
use fyles_release.P2p.Transfer.ReceiveManager.Window.{numbered, Agrees, Agrees-suc}

-- A file that appends what is written, and a disk that does not fail.
pub record Appends {F : Type 0} (api : AppendApi F) : Type 0 where
  pub contents : F → Bytes
  pub write_succeeds :
      (f : F) (bs : Bytes)
      → (f' : F) × (api.write_all f bs ≡ some f') × (contents f' ≡ contents f ++ bs)

-- The progress after the first `n` chunks.
abbrev pub bytes_to : (ℕ → Bytes) → ℕ → ℕ → ℕ
bytes_to content start n = start + total (λ i. length (content i)) n

got-lt-count :
    (got : ℕ → Bool) (count : ℕ)
    → ((i : ℕ) → count ≤ i → got i ≡ false)
    → (i : ℕ) → got i ≡ true
    → i < count
got-lt-count got count bounded i h = elim (dec_lt i count) [
  | yes p ↦ p
  | no p ↦ absurd (false≢true (sym (bounded i (omega arith)) ∙ h))
]

bytes_to-suc :
    (content : ℕ → Bytes) (start i count : ℕ)
    → i < count
    → (bytes_to content start (i + 1) ≡ bytes_to content start i + length (content i))
      × (bytes_to content start (i + 1) ≤ bytes_to content start count)
bytes_to-suc content start i count h = (
  omega (arith, total-add_one (λ j. length (content j)) i),
  omega (arith, total_mono (λ j. length (content j)) (i + 1) count (omega arith)),
)

drain-suc :
    {F D : Type 0} (api : AppendApi F) (fuel : ℕ) (m m' : ReceiveManager F D) (chunk : DataChunk)
    → chunk_at m.chunks_in_flight (m.earliest_not_received % parallel_chunks) ≡ some chunk
    → write_chunk api m chunk.content ≡ (received, m')
    → drain api (suc fuel) m ≡ drain api fuel m'
unfolding drain
drain-suc api fuel m m' chunk h w = ground arith

drain-end :
    {F D : Type 0} (api : AppendApi F) (fuel : ℕ) (m : ReceiveManager F D)
    → chunk_at m.chunks_in_flight (m.earliest_not_received % parallel_chunks) ≡ none
    → drain api (suc fuel) m ≡ some (received, m)
unfolding drain
drain-end api fuel m h = ground arith

module _ {F D : Type 0} (api : AppendApi F) (disk : Appends api) (transfer : ℕ)
    (content : ℕ → Bytes) (start : ℕ) (already : Bytes) where
  -- The manager after the chunks in `got` arrived: all chunks up to the first that is missing are
  -- counted and written behind what the file held already, and the later ones are kept.
  pub record Settling (got : ℕ → Bool) (m : ReceiveManager F D) : Type 0 where
    pub agrees : Agrees transfer content got m.chunks_in_flight m.earliest_not_received
    pub counted : m.byte_progress ≡ bytes_to content start m.earliest_not_received
    pub written : disk.contents m.file ≡ already ++ joined content m.earliest_not_received

  pub record Tracks (got : ℕ → Bool) (m : ReceiveManager F D) : Type 0 where
    pub settling : Settling got m
    pub first : got m.earliest_not_received ≡ false

  module _ (got : ℕ → Bool) (count declared : ℕ) (bounded : (i : ℕ) → count ≤ i → got i ≡ false)
      (fits : bytes_to content start count ≤ declared) (small : declared < u64_mod)
      (few : count + 8 < u32_mod) where
    abbrev Written : ReceiveManager F D → ReceiveManager F D → Type 0
    Written m m' =
        (write_chunk api m (content m.earliest_not_received) ≡ (received, m'))
        × Settling got m'
        × (m'.earliest_not_received ≡ m.earliest_not_received + 1)
        × (m'.declared_file_size_bytes ≡ m.declared_file_size_bytes)

    write_chunk_lem :
        (m : ReceiveManager F D)
        → Settling got m
        → got m.earliest_not_received ≡ true
        → m.declared_file_size_bytes ≡ declared
        → (m' : ReceiveManager F D) × Written m m'
    unfolding write_chunk
    write_chunk_lem m k h d =
        let i = m.earliest_not_received in
        let (f, w, c) = disk.write_succeeds m.file (content i) in
        let (step, most) =
          bytes_to-suc content start i count (got-lt-count got count bounded i h) in
        let q : (m.byte_progress + length (content i)) % u64_mod ≡ bytes_to content start (i + 1) =
          mod-eq_of_lt (omega (arith, k.counted)) ∙ omega (arith, k.counted) in
        let sum : (length (content i) + m.byte_progress) % u64_mod
            ≡ bytes_to content start (i + 1) =
          mod-eq_of_lt (omega (arith, k.counted)) ∙ omega (arith, k.counted) in
        let n : (i + 1) % u32_mod ≡ i + 1 =
          mod-eq_of_lt (omega (arith, got-lt-count got count bounded i h)) in
        (
          record m {
            chunks_in_flight = set m.chunks_in_flight (i % parallel_chunks) none;
            byte_progress = (m.byte_progress + length (content i)) % u64_mod;
            file = f;
            earliest_not_received = (i + 1) % u32_mod;
          },
          (
            ground (arith, w, k.counted, sum),
            record {
              agrees = rw n (Agrees-suc transfer content got m.chunks_in_flight i k.agrees h);
              counted = rw n q;
              written = rw n (
                  c
                  ∙ ap (λ bs. bs ++ content i) k.written
                  ∙ append_assoc already (joined content i) (content i)
                  ∙ ap (λ bs. already ++ bs) (sym (joined-add_one content i)));
            },
            n,
            refl,
          ),
        )

    pub drain_lem :
        (fuel top : ℕ) (m : ReceiveManager F D)
        → Settling got m
        → m.declared_file_size_bytes ≡ declared
        → ((i : ℕ) → top ≤ i → got i ≡ false)
        → m.earliest_not_received ≤ top
        → top < m.earliest_not_received + fuel
        → (m' : ReceiveManager F D) × (drain api fuel m ≡ some (received, m'))
          × Tracks got m'
          × (m'.declared_file_size_bytes ≡ declared)
    drain_lem zero top m k d b l u = absurd (omega arith)
    drain_lem (suc fuel) top m k d b l u =
        let here = k.agrees.inside m.earliest_not_received (omega arith) (omega arith) in
        elim (Bool-cases (got m.earliest_not_received)) [
          | inl yet ↦
              let (m1, (eq, k1, n, d1)) = write_chunk_lem m k yet d in
              let low = got-lt-count got top b m.earliest_not_received yet in
              let (m', eq', t, d') =
                drain_lem fuel top m1 k1 (d1 ∙ d) b (omega (arith, n)) (omega (arith, n)) in
              (
                m',
                drain-suc api fuel m m1 (numbered transfer content m.earliest_not_received)
                      (here ∙ rw yet) eq
                    ∙ eq',
                t,
                d',
              )
          | inr end ↦
              (m, drain-end api fuel m (here ∙ rw end), record { settling = k; first = end }, d)
        ]
