-- ===== src/Lib.antt =====
-- The verification library of Fyles, a service that sends files between peers.
--
-- A sender offers a file to a peer, cuts it into chunks and keeps at most eight of them in flight. The
-- receiver puts the chunks in order, appends them to a partial file and confirms each; at the end the
-- partial file gets its final name. Messages travel in encrypted sessions, whose nonces must never be
-- accepted twice. Requests that are not answered time out.
--
-- What models what, by paths from the repository's root:
-- - Base: hash maps as association lists without double keys, lists with native indices, sums over the
--   first numbers, windows whose slots are numbered by a remainder.
-- - Crypto: fyles_service/crypto/src/rolling_nonce_window.rs. BitStore is the trait and its
--   implementation for Vec<bool>, NonceWindow is RollingNonceWindow, NonceSession is
--   NonceGeneratorValidator.
-- - P2p.Types: fyles_service/p2p/src/types.rs. P2p.FileReader: fyles_service/p2p/src/file_reader.rs.
-- - P2p.Data.IdleExpiryMap: fyles_service/p2p/src/data_structures/idle_expiry_map.rs; `put` is
--   IdleExpiryMap::insert and `take` is remove. View gives what a client sees at a time, and Reports
--   what on_expire gets.
-- - P2p.Data.ScopedExpiryMap: fyles_service/p2p/src/data_structures/scoped_expiry_map.rs.
-- - P2p.Transfer.SendManager and SendData: send_manager.rs of
--   fyles_service/p2p/src/event_loop/filerequest.
-- - P2p.Transfer.ReceiveManager and Receiver: receive_manager.rs there. Receiver.respond_to answers
--   each request, and calls ReceiveManager.store for a chunk as the code does.
-- - P2p.Transfer.World: what the receiver calls, from fyles_service/core/src/core/brain/action_p2p.rs,
--   fyles_service/core/src/core/domain_models.rs and fyles_service/core/src/library/util/part_file.rs.
-- - P2p.FileTracker: file_tracker.rs of fyles_service/p2p/src/event_loop/filerequest, the files that
--   wait for a peer and the one that is sent to it. Next offers the next file (send_next,
--   complete_file), Chunks sends the chunks of a file that was accepted (send_chunks_loop), Reset puts
--   a file back to the queue, Verify looks a contact up, Responses handles each response and Errors
--   each error, Cancel adds and cancels files; these work on the entry of one peer. Peers lifts them
--   to the map of all peers. Calls puts the calls for one peer together. Of the proofs, Accounts
--   counts where each file is, Phases holds the abstract machine of the sending slot, Ends says which
--   calls return, and Losses where a file gets lost.
-- - P2p.RequestRegistry: fyles_service/p2p/src/send_receive_traits/request_registry.rs. Worker is the
--   stream of the timeouts; System puts the registry, the channel and the worker together.
-- - P2p.Sessions: fyles_service/p2p/src/send_receive_traits/session_send_receive.rs, over
--   P2p.RequestRegistry. Store is the store of the sessions of get_session.rs there, over Core.TtlMap,
--   which is fyles_service/core/src/library/ttlmap.rs, and P2p.Data.ScopedExpiryMap; Recent shows
--   which sessions are tried. Responder is session_responder.rs there, the answering side.
-- - Core.Domain: the status of a file to be sent, and its columns in the database, from
--   fyles_service/core/src/core/domain_models.rs.
-- - Core.BoundedList: fyles_service/core/src/library/bounded_list.rs.
--
-- How the code is modelled. Each call is a function from the state to the result and the state after
-- it; a call of the clock is an argument, and instants and durations are numbers of milliseconds,
-- whose difference stops at 0 as duration_since does. Identifiers, names and paths are numbers, since
-- the code only compares them or passes them on. A u32, u64 or usize wraps where the code adds. A
-- result `none` stands for a panic, or for a loop that does not end, where the comment says so. Log
-- lines are left out.
--
-- Loops run on fuel: the loop of ReceiveManager.store on one more than the number of slots, the loop
-- of SendManager.mark_done on nine, the loop of FileTracker.send_chunks_loop on nine as well, and the
-- loop of the nonce window on its size. The theorems show that this is enough, since each round
-- empties a slot, fills one of the window of eight, or moves the lower bound by one.
--
-- Parameters: the sessions and the network in P2p.Sessions, the file of tokio, the map of expiringmap,
-- the queue of timeouts of tokio_util, and in the receiver the brain, the drive handler, the clock and
-- the random answer. The file tracker takes what it calls and waits for as one record, Outside: the
-- session that sends, the brain, the disk and the random ids. Its calls are taken one at a time, since
-- each holds the lock of the files; a call that waits for a lock that its caller holds is kept as
-- `deadlocked`, a panic of an `expect` as `panicked`. Where a theorem relies on their behaviour, a
-- record names what is documented of it (Appends, Lawful), and a concrete instance stands with the
-- tests.
--
-- Not modelled: what comes between two rounds of send_chunks_loop, the sessions' establishment, the
-- event loop, the database, the API server and the file system. Cryptography and libp2p are
-- third-party code.
pub mod Base
pub mod Crypto
pub mod P2p
pub mod Core
