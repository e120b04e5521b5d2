-- ===== src/P2p/Transfer/Examples.antt =====
-- The theorems of the file transfer at concrete inputs: a file is the list of its bytes.
use fyles_release.Base.{
  any, ◌==◌, ◌<◌, true, ℕ, zero, suc, ◌+◌, ◌≡◌, refl, Bool, Option, none, some, List, [], ◌∷◌, ◌++◌,
  length, replicate, arith, nat_eq,
}
use fyles_release.Base.Slots.{mark}
use fyles_release.Base.HashMap.{lookup, insert}
use fyles_release.P2p.Types.{Bytes, DataChunk, parallel_chunks}
use fyles_release.P2p.FileReader.{FileReader, FileApi, ReadRes, bytes_read}
use fyles_release.P2p.FileReader
use fyles_release.P2p.Transfer.SendManager.{
  SendManager, SendRes, sent, done, send_next_chunk, mark_done, record_sent, is_ready,
}
use fyles_release.P2p.Transfer.SendManager
use fyles_release.P2p.Transfer.SendManager.Progress
use fyles_release.P2p.Transfer.SendManager.Progress.{mark_done_lem}
use fyles_release.P2p.Transfer.SendManager.Sending.{new-Tracks, send_next_chunk_sent}
use fyles_release.P2p.Transfer.ReceiveManager.{
  ReceiveManager, AppendApi, ReceiverRes, received, protocol_violation, store, drain, reset,
}
use fyles_release.P2p.Transfer.ReceiveManager
use fyles_release.P2p.Transfer.ReceiveManager.Window.{numbered}
use fyles_release.P2p.Transfer.ReceiveManager.Drain.{Appends, Tracks}
use fyles_release.P2p.Transfer.ReceiveManager.Arrivals.{store_all, arrivals_complete}
use fyles_release.P2p.Transfer.ReceiveManager.Order.{store_lem}
use fyles_release.P2p.Transfer.ReceiveManager.Restart
use fyles_release.P2p.Transfer.ReceiveManager.Restart.{nothing, reset-Tracks}

-- A disk that holds byte lists.
abbrev byte_disk : AppendApi Bytes
byte_disk = record { write_all = λ f bs. some (f ++ bs); metadata_len = λ f. some (length f) }

abbrev byte_disk-Appends : Appends byte_disk
byte_disk-Appends = record { contents = λ f. f; write_succeeds = λ f bs. (f ++ bs, refl, refl) }

abbrev three_pieces : ℕ → Bytes
three_pieces zero = 10 ∷ 11 ∷ []
three_pieces (suc zero) = 20 ∷ 21 ∷ []
three_pieces (suc (suc zero)) = 30 ∷ []
three_pieces (suc (suc (suc n))) = []

abbrev receiver_start : ReceiveManager Bytes ℕ
receiver_start = record {
  chunks_in_flight = replicate parallel_chunks none;
  earliest_not_received = 0;
  declared_file_size_bytes = 5;
  byte_progress = 0;
  file = [];
  file_name = 1;
  transfer_id = 7;
  filerequest_id = 2;
  drive_handler = 0;
  contact_id = none;
  started_at_ms = 0;
}

receiver_start-Tracks :
    Tracks byte_disk byte_disk-Appends 7 three_pieces 0 [] nothing receiver_start
unfolding ReceiveManager.new
receiver_start-Tracks =
    Restart.new-Tracks byte_disk byte_disk-Appends 7 three_pieces 0 [] 5 1 7 2 none 0

store_lem_example :
    (m' : ReceiveManager Bytes ℕ) × (store byte_disk receiver_start (numbered 7 three_pieces 2)
      ≡ some (received, m'))
    × Tracks byte_disk byte_disk-Appends 7 three_pieces 0 [] (mark nothing 2) m'
    × (m'.declared_file_size_bytes ≡ 5)
store_lem_example =
    store_lem byte_disk byte_disk-Appends 7 three_pieces 0 [] nothing 3 receiver_start
      receiver_start-Tracks 2 (λ i h. refl) (omega arith) (omega arith) (omega arith) (omega arith)
      (omega arith)

-- The manager that keeps the third chunk, which came first.
third_first :
    (m' : ReceiveManager Bytes ℕ) × (store byte_disk receiver_start (numbered 7 three_pieces 2)
      ≡ some (received, m'))
    × Tracks byte_disk byte_disk-Appends 7 three_pieces 0 [] (mark nothing 2) m'
    × (m'.declared_file_size_bytes ≡ 5)
third_first =
    store_lem byte_disk byte_disk-Appends 7 three_pieces 0 [] nothing 3 receiver_start
      receiver_start-Tracks 2 (λ i h. refl) (omega arith) (omega arith) (omega arith) (omega arith)
      (omega arith)

reset-Tracks_example :
    Tracks byte_disk byte_disk-Appends 7 three_pieces third_first.0.byte_progress third_first.0.file
      nothing
      (reset third_first.0)
reset-Tracks_example =
    reset-Tracks byte_disk byte_disk-Appends 7 three_pieces three_pieces 0 [] (mark nothing 2)
      third_first.0 third_first.2

-- The sender reads a file by the list of the chunks that it gives.
abbrev chunk_file : FileApi (List Bytes)
chunk_file = record {
  read = λ f. elim f [ [] ↦ (bytes_read [], []) | c ∷ cs ↦ (bytes_read c, cs) ];
  seek = λ f offset. f;
}

abbrev sizes : ℕ → ℕ
sizes i = length (three_pieces i)

abbrev pieces : List Bytes
pieces = three_pieces 0 ∷ three_pieces 1 ∷ three_pieces 2 ∷ []

abbrev SenderTracks : (ℕ → Bool) → SendManager ℕ (List Bytes) → Type 0
SenderTracks = Progress.Tracks sizes 0

abbrev starting : SendManager ℕ (List Bytes)
starting = SendManager.new chunk_file 7 5 pieces

starting-Tracks : SenderTracks nothing starting
starting-Tracks = new-Tracks chunk_file sizes 7 5 pieces

abbrev give_id : DataChunk → Option ℕ
give_id c = some (100 + c.idx)

abbrev one_sent : SendManager ℕ (List Bytes)
one_sent = (send_next_chunk chunk_file give_id starting).1

send_next_chunk_sent_example :
    let (res, m') = send_next_chunk chunk_file give_id starting in
    (res ≡ sent 100)
    × SenderTracks nothing m'
    × (m'.next_slot ≡ 1)
    × (lookup 100 m'.chunk_to_index ≡ some 0)
unfolding SendManager.new FileReader.new FileReader.read lookup
send_next_chunk_sent_example =
    send_next_chunk_sent chunk_file sizes 0 nothing starting starting-Tracks give_id
      (three_pieces 0) 100 100 (omega arith) refl refl refl refl (omega arith)

one_sent-Tracks : SenderTracks nothing one_sent
unfolding SendManager.new FileReader.new FileReader.read lookup
one_sent-Tracks =
    (send_next_chunk_sent chunk_file sizes 0 nothing starting starting-Tracks give_id
      (three_pieces 0) 100 100 (omega arith) refl refl refl refl (omega arith)).1

mark_done_lem_example :
    (m' : SendManager ℕ (List Bytes)) × (mark_done one_sent 100 ≡ some m')
    × SenderTracks (mark nothing 0) m'
    × (m'.next_slot ≡ one_sent.next_slot)
    × (m'.file_size_bytes ≡ one_sent.file_size_bytes)
unfolding SendManager.new send_next_chunk is_ready FileReader.new FileReader.read lookup insert
mark_done_lem_example =
    mark_done_lem sizes 0 nothing one_sent one_sent-Tracks 100 0 refl (omega arith)

abbrev receiver_end : ReceiveManager Bytes ℕ
receiver_end = record receiver_start {
  earliest_not_received = 3;
  byte_progress = 5;
  file = 10 ∷ 11 ∷ 20 ∷ 21 ∷ 30 ∷ [];
}

-- The third chunk comes first, and the first one twice.
arrivals_complete_example :
    (receiver_end.byte_progress ≡ 5) × (receiver_end.file ≡ 10 ∷ 11 ∷ 20 ∷ 21 ∷ 30 ∷ [])
unfolding store_all store drain ReceiveManager.new
arrivals_complete_example =
    arrivals_complete byte_disk byte_disk-Appends 7 three_pieces 0 [] 3 5 (omega arith)
      (omega arith) (omega arith) 0 [] 1 7 2 none 0 (2 ∷ 0 ∷ 0 ∷ 1 ∷ []) receiver_end refl refl
      (omega arith, (omega arith, (omega arith, (omega arith, tt)))) (λ i h. each_there i h) refl
  where
    each_there : (i : ℕ) → i < 3 → any (λ j. j == i) (2 ∷ 0 ∷ 0 ∷ 1 ∷ []) ≡ true
    each_there i h = ground (arith, h)
