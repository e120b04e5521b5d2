-- ===== src/P2p/Transfer/ReceiveManager/Window.antt =====
-- The receiver's window against the set of the chunks that arrived.
use fyles_release.Base.{
  ℕ, ◌+◌, ◌%◌, ◌≤◌, ◌<◌, ◌≡◌, ◌≢◌, ◌∙◌, Bool, true, false, Option, none, some, List, if◌then◌else◌,
  set, length, length-set, arith, get_elem?-set_self, get_elem?-set_ne, dec_lt, ℕ_discrete,
}
use fyles_release.Base.Slots.{mark, slots-ne, slot_again}
use fyles_release.P2p.Types.{Bytes, DataChunk, parallel_chunks}
use fyles_release.P2p.Transfer.ReceiveManager.{chunk_at}

chunk_at-set_self :
    (xs : List (Option DataChunk)) (i : ℕ) (v : Option DataChunk)
    → i < length xs
    → chunk_at (set xs i v) i ≡ v
chunk_at-set_self xs i v h = ground (arith, get_elem?-set_self xs i v h)

chunk_at-set_ne :
    (xs : List (Option DataChunk)) (i j : ℕ) (v : Option DataChunk)
    → i ≢ j
    → chunk_at (set xs i v) j ≡ chunk_at xs j
chunk_at-set_ne xs i j v h = ground (arith, get_elem?-set_ne xs i j v h)

-- The chunk with a number, of a transfer whose chunks hold `content`.
abbrev pub numbered : ℕ → (ℕ → Bytes) → ℕ → DataChunk
numbered transfer content i = record { transfer_uuid = transfer; content = content i; idx = i }

module _ (transfer : ℕ) (content : ℕ → Bytes) where
  abbrev pub kept : (ℕ → Bool) → ℕ → Option DataChunk
  kept got i = if got i then some (numbered transfer content i) else none

  -- The slots hold the chunks that arrived from `earliest` on; all before arrived, and none behind
  -- the window.
  pub record Agrees (got : ℕ → Bool) (slots : List (Option DataChunk)) (earliest : ℕ) : Type 0 where
    pub len : length slots ≡ parallel_chunks
    pub below : (i : ℕ) → i < earliest → got i ≡ true
    pub above : (i : ℕ) → earliest + parallel_chunks ≤ i → got i ≡ false
    pub inside :
        (i : ℕ)
        → earliest ≤ i
        → i < earliest + parallel_chunks
        → chunk_at slots (i % parallel_chunks) ≡ kept got i

  module _ (got : ℕ → Bool) (slots : List (Option DataChunk)) (earliest : ℕ)
      (a : Agrees got slots earliest) where
    other :
        (v : Option DataChunk) (i j : ℕ)
        → earliest ≤ i
        → i < earliest + parallel_chunks
        → earliest ≤ j
        → j < earliest + parallel_chunks
        → i ≢ j
        → chunk_at (set slots (i % parallel_chunks) v) (j % parallel_chunks)
          ≡ chunk_at slots (j % parallel_chunks)
    other v i j h k l m d =
        chunk_at-set_ne slots (i % parallel_chunks) (j % parallel_chunks) v
          (slots-ne parallel_chunks earliest i j h k l m d)

    own :
        (v : Option DataChunk) (i : ℕ)
        → chunk_at (set slots (i % parallel_chunks) v) (i % parallel_chunks) ≡ v
    own v i = chunk_at-set_self slots (i % parallel_chunks) v (omega (arith, a.len))

    -- Taking the first chunk moves the window past it.
    pub Agrees-suc :
        got earliest ≡ true
        → Agrees got (set slots (earliest % parallel_chunks) none) (earliest + 1)
    Agrees-suc h = record {
      len = length-set slots (earliest % parallel_chunks) none ∙ a.len;
      below =
          λ i k. elim (ℕ_discrete i earliest) [ yes e ↦ rw e h | no d ↦ a.below i (omega arith) ];
      above = λ i k. a.above i (omega arith);
      inside = λ i k m. elim (dec_lt i (earliest + parallel_chunks)) [
        | yes p ↦
            other none earliest i (omega arith) (omega arith) (omega arith) p (omega arith)
            ∙ a.inside i (omega arith) p
        | no p ↦
            rw (← slot_again parallel_chunks earliest i (omega arith))
              (own none earliest ∙ ground (arith, a.above i (omega arith)))
      ];
    }

    -- Storing a chunk of the window marks it.
    pub Agrees-mark :
        (idx : ℕ)
        → earliest ≤ idx
        → idx < earliest + parallel_chunks
        → Agrees
            (mark got idx)
            (set slots (idx % parallel_chunks) (some (numbered transfer content idx)))
            earliest
    Agrees-mark idx h l = record {
      len = length-set slots (idx % parallel_chunks) (some (numbered transfer content idx)) ∙ a.len;
      below = λ i k. ground (arith, a.below i k);
      above = λ i k. ground (arith, a.above i k);
      inside = λ i k m. elim (ℕ_discrete idx i) [
        | yes e ↦ rw (← e) (own (some (numbered transfer content idx)) idx ∙ ground arith)
        | no d ↦
            other (some (numbered transfer content idx)) idx i h l k m d
            ∙ a.inside i k m
            ∙ ground arith
      ];
    }

    -- A chunk before the window arrived already.
    pub Agrees-old : (idx : ℕ) → idx < earliest → Agrees (mark got idx) slots earliest
    Agrees-old idx h = record {
      len = a.len;
      below = λ i k. ground (arith, a.below i k);
      above = λ i k. ground (arith, a.above i k);
      inside = λ i k m. a.inside i k m ∙ ground arith;
    }
