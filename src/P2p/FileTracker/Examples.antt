-- ===== src/P2p/FileTracker/Examples.antt =====
-- The theorems of the file tracker at concrete inputs: the world outside counts the requests, and a
-- file is the list of its bytes.
use fyles_release.Base.{
  ℕ, ◌+◌, ◌≡◌, ◌⊎◌, ◌↔◌, refl, true, false, none, some, List, [], ◌∷◌, replicate, on_some, nat_eq,
  arith,
}
use fyles_release.Base.HashMap.{lookup}
use fyles_release.P2p.Types.{
  FylesId, PeerId, Bytes, confirm_done, confirm_chunk, reject_chunk, parallel_chunks,
}
use fyles_release.P2p.FileReader.{bytes_read}
use fyles_release.P2p.Transfer.SendManager.{empty}
use fyles_release.P2p.Transfer.SendManager
use fyles_release.P2p.Transfer.SendManager.Sending.{new-Tracks}
use fyles_release.P2p.Transfer.SendData.{LockedSendData, unlock}
use fyles_release.P2p.Transfer.SendData
use fyles_release.Core.Domain.{
  TransferData, prepared, sending, pending_sent, SendStatus, pending, in_progress, PendingFile,
}
use fyles_release.P2p.FileTracker.{
  file_sent, pending_file_added, on_send_file, done_sending, notify, plugin, Outside, Scene,
  PeerFiles, Run, returned,
}
use fyles_release.P2p.FileTracker.Next.{
  complete_file, send_next, follow, try_next, try_at, try_opened, try_sized, offer, offer_new,
}
use fyles_release.P2p.FileTracker.Responses.{receive_confirm_done, without_sending}
use fyles_release.P2p.FileTracker.Responses
use fyles_release.P2p.FileTracker.Errors.{remote_error, handle_receive_error}
use fyles_release.P2p.FileTracker.Cancel.{add_pending_file}
use fyles_release.P2p.FileTracker.Peers.{Files, holds_file, cancel_file}
use fyles_release.P2p.FileTracker.Calls.{Call, respond, add, perform, and_then, perform_all}
use fyles_release.P2p.FileTracker.Accounts.{Continues, held, ended, accounted}
use fyles_release.P2p.FileTracker.Accounts.Exact.{
  receive_response_exact, handle_receive_error_exact,
}
use fyles_release.P2p.FileTracker.Phases.{delivering, finishing, entry_phase, delivered, IsTracked}
use fyles_release.P2p.FileTracker.Phases.Others.{call_kind}
use fyles_release.P2p.FileTracker.Phases.Runs.{Follows, perform_all-Follows, perform_all-IsTracked}
use fyles_release.P2p.FileTracker.Phases.Delivery.{perform_delivers}
use fyles_release.P2p.FileTracker.Ends.{end_of, panics}
use fyles_release.P2p.FileTracker.Ends.Whole.{IsAckedEntry, end_of-receive_response}
use fyles_release.P2p.FileTracker.Isolation.{cancel_file_lem}
use fyles_release.P2p.FileTracker.Losses.{reject_chunk-drops}

abbrev outside : Outside ℕ Bytes
outside = record {
  files = record { read = λ f. (bytes_read f, []); seek = λ f offset. f };
  metadata_len = λ f. some 2;
  send = λ w peer contact request. (some w, w + 1);
  send_idempotent = λ w peer contact request. (some w, w + 1);
  open_file = λ w path id offset. (some (record { file_name = path; file = 10 ∷ 11 ∷ [] }), w);
  is_contact_known = λ w contact. (some true, w);
  new_id = λ w. (w + 100, w);
}

-- Nothing can be sent, and the brain answers with an error.
abbrev broken : Outside ℕ Bytes
broken = record outside {
  send = λ w peer contact request. (none, w + 1);
  is_contact_known = λ w contact. (none, w);
}

outside-Continues : Continues outside
outside-Continues w peer contact filerequest transfer = λ h. cc

abbrev scene : Scene ℕ
scene = record { world = 0; log = [] }

abbrev transfer : TransferData
transfer = record { progress_bytes = 1; file_size_bytes = 2; transfer_id = 7 }

abbrev file_with : FylesId → SendStatus → PendingFile
file_with id status = record {
  id = id;
  contact_id = 3;
  file_path = 5;
  retry_count = 0;
  target_filerequest_id = 2;
  status = status;
  display_name = none;
  interruption_reasons = [];
}

abbrev slot_with : SendStatus → LockedSendData ℕ Bytes
slot_with status = record {
  send_manager = record {
    chunk_to_index = [];
    chunks_in_flight = replicate parallel_chunks empty;
    earliest_not_sent = 0;
    next_slot = 0;
    file = record { lazy_buffer = []; pending_read = none; read_index = 0 };
    progress_bytes = 0;
    file_size_bytes = 2;
    transfer_id = 7;
  };
  pending_file = file_with 1 status;
  must_verify_contact_id = true;
}

abbrev finishing_files : PeerFiles Bytes
finishing_files = record {
  pending = [];
  sending = some (slot_with (in_progress pending_sent transfer));
}

abbrev offered_files : PeerFiles Bytes
offered_files = record {
  pending = file_with 2 pending ∷ [];
  sending = some (slot_with (in_progress prepared transfer));
}

-- The file is reported and the entry is removed.
abbrev after_done : Run ℕ Bytes
after_done = record {
  files = none;
  scene = record { world = 0; log = plugin done_sending ∷ notify (file_sent 1) ∷ [] };
}

receive_response_exact_example : accounted 1 after_done ≡ held 1 (some finishing_files) + ended 1 []
unfolding Responses.receive_response receive_confirm_done complete_file send_next on_some
receive_response_exact_example =
    receive_response_exact 1 outside 9 (some 3) (some 0) confirm_done (some finishing_files) scene
      after_done outside-Continues refl refl

handle_receive_error_exact_example :
    accounted 1 (handle_receive_error outside 9 remote_error (some offered_files) scene)
    ≡ held 1 (some offered_files) + ended 1 []
handle_receive_error_exact_example =
    handle_receive_error_exact 1 outside 9 remote_error (some offered_files) scene outside-Continues

-- A file is added, the peer confirms the end of the one before it, which is reported, and the added one
-- is offered.
abbrev calls : List Call
calls = add (file_with 2 pending) ∷ respond (some 3) (some 0) confirm_done ∷ []

abbrev after_calls : Run ℕ Bytes
after_calls = record {
  files = some (record {
    pending = [];
    sending = some (
        SendData.new outside.files
          (file_with 2 (
            in_progress prepared
              (record { progress_bytes = 0; file_size_bytes = 2; transfer_id = 100 })))
          100 2 (10 ∷ 11 ∷ []));
  });
  scene = record {
    world = 1;
    log = plugin on_send_file ∷ notify (file_sent 1) ∷ plugin (pending_file_added false) ∷ [];
  };
}

perform_all-Follows_example :
    Follows calls (finishing 1) [] (entry_phase after_calls.files) (1 ∷ [])
unfolding perform_all perform and_then Responses.receive_response receive_confirm_done complete_file
    send_next try_next try_at try_opened try_sized offer offer_new follow on_some add_pending_file
perform_all-Follows_example =
    perform_all-Follows outside 9 calls (some finishing_files) scene after_calls refl

perform_all-IsTracked_example : IsTracked after_calls.files
unfolding perform_all perform and_then Responses.receive_response receive_confirm_done complete_file
    send_next try_next try_at try_opened try_sized offer offer_new follow on_some add_pending_file
perform_all-IsTracked_example =
    perform_all-IsTracked outside 9 calls (some finishing_files) scene after_calls refl (tt, refl)

perform_delivers_example :
    (delivered after_done.scene.log ≡ [])
    ⊎ ((id : FylesId) × (call_kind (respond (some 3) (some 0) confirm_done) ≡ delivering)
        × (entry_phase (some finishing_files) ≡ finishing id)
        × (delivered after_done.scene.log ≡ id ∷ []))
unfolding perform Responses.receive_response receive_confirm_done complete_file send_next on_some
perform_delivers_example =
    perform_delivers outside 9 (respond (some 3) (some 0) confirm_done) (some finishing_files) scene
      after_done refl

abbrev sending_files : PeerFiles Bytes
sending_files = record { pending = []; sending = some (slot_with (in_progress sending transfer)) }

-- Nothing was sent yet.
sending_files-IsAcked : IsAckedEntry (λ i. 1) 0 (λ i. false) (some sending_files)
unfolding SendManager.new
sending_files-IsAcked =
    let t = new-Tracks {RequestId = ℕ} outside.files (λ i. 1) 7 2 [] in
    (
      record {
        agrees = t.agrees;
        first = t.first;
        counted = t.counted;
        registered = t.registered;
        one_id = t.one_id;
      },
      omega arith,
    )

end_of-receive_response_example :
    end_of (
      Responses.receive_response outside 9
        (some 3)
        (some 0)
        confirm_chunk
        (some sending_files)
        scene)
    ≡ panics
unfolding on_some unlock lookup
end_of-receive_response_example =
    end_of-receive_response outside 9 (λ i. 1) 0 (λ i. false) (some 3) (some 0) confirm_chunk
      (some sending_files) scene (record { order = omega arith; room = omega arith })
      sending_files-IsAcked

abbrev two_peers : Files Bytes
two_peers = (9, finishing_files) ∷ (8, offered_files) ∷ []

cancel_file_lem_example : (cancel_file outside 6 two_peers scene ≡ (none, two_peers, scene)) ↔ (
    (peer : PeerId) (files : PeerFiles Bytes)
    → lookup peer two_peers ≡ some files
    → holds_file 6 files ≡ false)
unfolding lookup
cancel_file_lem_example = cancel_file_lem outside 6 two_peers scene (refl, (refl, tt))

reject_chunk-drops_example :
    (run : Run ℕ Bytes) × (Responses.receive_response outside 9
        (some 3)
        (some 0)
        reject_chunk
        (some offered_files)
        scene
      ≡ returned run)
    × (run.files ≡ some (without_sending offered_files))
    × (run.scene.log ≡ [])
reject_chunk-drops_example =
    reject_chunk-drops outside 9 (some 3) (some 0) offered_files
      (slot_with (in_progress prepared transfer)) scene refl refl
