-- ===== src/P2p/Transfer/ReceiveManager/Restart.antt =====
-- `ReceiveManager::new` and `reset`: where a transfer starts, and where it goes on.
use mathlib.Core.List.{append-nil}
use fyles_release.Base.{
  ℕ, zero, suc, ◌%◌, ◌≡◌, refl, sym, ap, ◌∙◌, Bool, false, Option, none, List, [], ◌∷◌, map, length,
  replicate, arith,
}
use fyles_release.P2p.Types.{ContactId, Bytes, DataChunk, parallel_chunks}
use fyles_release.P2p.Transfer.ReceiveManager.{ReceiveManager, AppendApi, chunk_at, new, reset}
use fyles_release.P2p.Transfer.ReceiveManager.Window.{Agrees}
use fyles_release.P2p.Transfer.ReceiveManager.Drain.{Appends, Tracks}

chunk_at-replicate : (n i : ℕ) → chunk_at (replicate n none) i ≡ none
chunk_at-replicate zero i = refl
chunk_at-replicate (suc n) zero = refl
chunk_at-replicate (suc n) (suc i) = chunk_at-replicate n i

chunk_at-map-none :
    (xs : List (Option DataChunk)) (i : ℕ) → chunk_at (map (λ slot. none) xs) i ≡ none
chunk_at-map-none [] i = refl
chunk_at-map-none (x ∷ xs) zero = refl
chunk_at-map-none (x ∷ xs) (suc i) = chunk_at-map-none xs i

length-map-none :
    (xs : List (Option DataChunk))
    → length (map {B = Option DataChunk} (λ slot. none) xs) ≡ length xs
length-map-none [] = refl
length-map-none (x ∷ xs) = ap suc (length-map-none xs)

abbrev pub nothing : ℕ → Bool
nothing i = false

empty-Agrees :
    (transfer : ℕ) (content : ℕ → Bytes) (slots : List (Option DataChunk))
    → length slots ≡ parallel_chunks
    → ((i : ℕ) → chunk_at slots i ≡ none)
    → Agrees transfer content nothing slots 0
empty-Agrees transfer content slots n h = record {
  len = n;
  below = λ i l. absurd (omega arith);
  above = λ i l. refl;
  inside = λ i k l. h (i % parallel_chunks);
}

module _ {F D : Type 0} (api : AppendApi F) (disk : Appends api) (transfer : ℕ)
    (content : ℕ → Bytes) where
  -- A new manager has nothing, and counts from 0.
  pub new-Tracks :
      (drive : D) (file : F) (size name id filerequest : ℕ) (contact : Option ContactId)
      (started : ℕ)
      → Tracks {D = D} api disk transfer content 0
          (disk.contents file)
          nothing
          (new drive file size name id filerequest contact started)
  unfolding new
  new-Tracks drive file size name id filerequest contact started = record {
    settling = record {
      agrees =
          empty-Agrees transfer content (replicate parallel_chunks none) refl
            (chunk_at-replicate parallel_chunks);
      counted = refl;
      written = sym (append-nil (disk.contents file));
    };
    first = refl;
  }

  -- After a reset the sender may send any chunks from the progress on, numbered from 0 again: the
  -- manager has none of them, keeps the bytes that it wrote, and forgets the chunks that were not
  -- in order.
  pub reset-Tracks :
      (before : ℕ → Bytes) (start : ℕ) (already : Bytes) (got : ℕ → Bool) (m : ReceiveManager F D)
      → Tracks api disk transfer before start already got m
      → Tracks api disk transfer content m.byte_progress (disk.contents m.file) nothing (reset m)
  unfolding reset
  reset-Tracks before start already got m k = record {
    settling = record {
      agrees =
          empty-Agrees transfer content (map (λ slot. none) m.chunks_in_flight)
            (length-map-none m.chunks_in_flight ∙ k.settling.agrees.len)
            (chunk_at-map-none m.chunks_in_flight);
      counted = omega arith;
      written = sym (append-nil (disk.contents m.file));
    };
    first = refl;
  }
