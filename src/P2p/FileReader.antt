-- ===== src/P2p/FileReader.antt =====
-- fyles_service/p2p/src/file_reader.rs: a reader that reads one chunk ahead. The file itself is
-- tokio's: a parameter that reads a chunk or fails, and seeks.
use fyles_release.Base.{ℕ, ◌+◌, Option, none, some, [], ◌∷◌}
use fyles_release.P2p.Types.{Bytes}

pub data ReadRes : Type 0 where
  bytes_read : Bytes → ReadRes
  read_error : ℕ → ReadRes

-- `tokio::fs::File`: `read` into a chunk, and `seek` from the start, each with the file after it.
pub record FileApi (F : Type 0) : Type 0 where
  pub read : F → ReadRes × F
  pub seek : F → ℕ → F

-- The task in `pending_read` is started at once, so it is kept as its result.
pub record FileReader (F : Type 0) : Type 0 where
  pub lazy_buffer : Bytes
  pub pending_read : Option (F × ReadRes)
  pub read_index : ℕ

-- What `read` gives: `none` for the end of the file.
abbrev pub ReadOut : Type 0
ReadOut = Option ReadRes

module _ {F : Type 0} (api : FileApi F) where
  spawn_read : F → F × ReadRes
  spawn_read file = let (res, file') = api.read file in (file', res)

  unfoldable pub new : F → FileReader F
  unfolding spawn_read
  new file = record { lazy_buffer = []; pending_read = some (spawn_read file); read_index = 0 }

  -- The result of the task in flight; a read of some bytes starts the next one.
  settle : FileReader F → F → ReadRes → ReadOut × FileReader F
  unfolding spawn_read
  settle r file (read_error e) = (some (read_error e), record r { pending_read = none })
  settle r file (bytes_read []) = (none, record r { lazy_buffer = []; pending_read = none })
  settle r file (bytes_read (x ∷ xs)) = (
    some (bytes_read (x ∷ xs)),
    record r { lazy_buffer = x ∷ xs; pending_read = some (spawn_read file) },
  )

  unfoldable pub read : FileReader F → ReadOut × FileReader F
  unfolding settle
  read r =
      let r' = record r { read_index = r.read_index + 1 } in
      elim r.pending_read [ none ↦ (none, r') | some (file, res) ↦ settle r' file res ]

  unfoldable pub set_progress : FileReader F → ℕ → FileReader F
  unfolding spawn_read
  set_progress r offset = elim r.pending_read [
    | none ↦ r
    | some (file, res) ↦ record r { pending_read = some (spawn_read (api.seek file offset)) }
  ]
