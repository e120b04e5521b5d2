-- ===== src/P2p/Transfer/Receiver/Examples.antt =====
-- The theorems of the receiver at a concrete map of two peers. A file is the list of its bytes.
use fyles_release.Base.{
  ℕ, ◌≡◌, refl, true, none, some, [], ◌∷◌, ◌++◌, length, replicate, arith, inl, nat_eq,
}
use fyles_release.Base.HashMap.{lookup}
use fyles_release.P2p.Types
use fyles_release.P2p.Types.{
  Bytes, DataChunk, chunk, done, parallel_chunks, confirm_chunk, confirm_done, abort_transfer,
}
use fyles_release.P2p.Data.IdleExpiryMap.View.{view, until, IsWell}
use fyles_release.P2p.Transfer.ReceiveManager.{ReceiveManager, store, drain}
use fyles_release.P2p.Transfer.Receiver.{
  World, Receivers, Reply, respond_to, receiving, update_received_file_status, store_received_file,
}
use fyles_release.P2p.Transfer.Receiver.Isolation.{Answered, respond_to-Local}
use fyles_release.P2p.Transfer.Receiver.Answers.{respond_to_answers, chunk_refused, chunk_stored}
use fyles_release.P2p.Transfer.Receiver.Finish.{Finalized, confirm_done_only, confirm_done_if}

-- Every call succeeds, and a partial file is renamed to path 99.
abbrev good_world : World Bytes ℕ
good_world = record {
  append = record { write_all = λ f bs. some (f ++ bs); metadata_len = λ f. some (length f) };
  file_drop = some 0;
  continuation = none;
  created = true;
  stored = true;
  unix_epoch_millis = some 5000;
  partial_file = λ drive name. some [];
  remove_partial = λ drive name. true;
  finalize_partial = λ drive name file_name. some 99;
  random_response = confirm_chunk;
  entered = 100;
  used = 101;
  ended = 102;
}

-- One byte of two is written.
abbrev halfway : ReceiveManager Bytes ℕ
halfway = record {
  chunks_in_flight = replicate parallel_chunks none;
  earliest_not_received = 1;
  declared_file_size_bytes = 2;
  byte_progress = 1;
  file = 65 ∷ [];
  file_name = 1;
  transfer_id = 7;
  filerequest_id = 2;
  drive_handler = 0;
  contact_id = none;
  started_at_ms = 0;
}

abbrev finished : ReceiveManager Bytes ℕ
finished = record halfway { earliest_not_received = 2; byte_progress = 2; file = 65 ∷ 66 ∷ [] }

-- Peer 3 is halfway, and peer 4 has written all.
abbrev two_peers : Receivers Bytes ℕ
two_peers = record {
  entries =
      (3, record { value = halfway; last_touched = 90 })
      ∷ (4, record { value = finished; last_touched = 95 })
      ∷ [];
  idle_ttl = 30;
  cleanup_interval = 35;
  last_cleanup = 90;
  expired = [];
}

two_peers-IsWell : IsWell two_peers
unfolding lookup
two_peers-IsWell = (refl, (refl, tt))

abbrev second_chunk : DataChunk
second_chunk = record { transfer_uuid = 7; content = 66 ∷ []; idx = 1 }

abbrev foreign_chunk : DataChunk
foreign_chunk = record second_chunk { transfer_uuid = 8 }

respond_to-Local_example :
    Answered good_world 3 none two_peers
      (respond_to good_world 3 none two_peers (abort_transfer (some 7)))
respond_to-Local_example =
    respond_to-Local good_world 3 none two_peers (abort_transfer (some 7)) two_peers-IsWell
      (omega arith) (omega arith)

respond_to_answers_example :
    (r : Reply Bytes ℕ) × (respond_to good_world 3 none two_peers (chunk second_chunk) ≡ some r)
respond_to_answers_example = respond_to_answers good_world 3 none two_peers (chunk second_chunk)

chunk_refused_example :
    (a : Reply Bytes ℕ) × (respond_to good_world 3 none two_peers (chunk foreign_chunk) ≡ some a)
    × (a.response ≡ Types.FileResponse.protocol_violation)
    × (a.messages ≡ [])
    × (view a.receiving_files 3 103 ≡ none)
unfolding lookup
chunk_refused_example =
    chunk_refused good_world 3 none two_peers two_peers-IsWell (omega arith) halfway foreign_chunk
      103 refl (inl (omega arith))

chunk_stored_example :
    (a : Reply Bytes ℕ) × (respond_to good_world 3 none two_peers (chunk second_chunk) ≡ some a)
    × (a.response ≡ confirm_chunk)
    × (a.messages ≡ update_received_file_status 7 receiving 2 ∷ [])
    × (view a.receiving_files 3 103 ≡ until 30 101 103 finished)
unfolding lookup store drain
chunk_stored_example =
    chunk_stored good_world 3 none two_peers two_peers-IsWell (omega arith) halfway finished
      second_chunk 103 refl refl refl refl (omega arith)

peer_4-Finalized : Finalized good_world 4 none finished 7 (store_received_file 7 99 5000 ∷ [])
peer_4-Finalized = record {
  same_transfer = refl;
  complete = refl;
  path = 99;
  finalized = refl;
  ms = 5000;
  clock = refl;
  stored = refl;
  told = refl;
}

confirm_done_if_example :
    (a : Reply Bytes ℕ) × (respond_to good_world 4 none two_peers (done 7) ≡ some a)
    × (a.response ≡ confirm_done)
unfolding lookup
confirm_done_if_example =
    confirm_done_if good_world 4 none two_peers two_peers-IsWell (omega arith) (omega arith) 7
      finished (store_received_file 7 99 5000 ∷ []) refl peer_4-Finalized

peer_4_confirmed :
    (a : Reply Bytes ℕ) × (respond_to good_world 4 none two_peers (done 7) ≡ some a)
    × (a.response ≡ confirm_done)
unfolding lookup
peer_4_confirmed =
    confirm_done_if good_world 4 none two_peers two_peers-IsWell (omega arith) (omega arith) 7
      finished (store_received_file 7 99 5000 ∷ []) refl peer_4-Finalized

confirm_done_only_example :
    (r : ReceiveManager Bytes ℕ) × (view two_peers 4 102 ≡ some r)
    × Finalized good_world 4 none r 7 peer_4_confirmed.0.messages
confirm_done_only_example =
    confirm_done_only good_world 4 none two_peers two_peers-IsWell (omega arith) (omega arith) 7
      peer_4_confirmed.0 peer_4_confirmed.1 peer_4_confirmed.2
