-- ===== src/P2p/FileTracker/Accounts/Exact.antt =====
-- fyles_service/p2p/src/event_loop/filerequest/file_tracker.rs: each file stays in the tracker, or
-- leaves it with one outcome.
use fyles_release.Base.{ℕ, ◌+◌, ◌≤◌, ◌≡◌, true, Option, arith}
use fyles_release.P2p.Types.{FylesId, ContactId, PeerId, FileResponse}
use fyles_release.P2p.FileTracker.{
  Outside, Scene, PeerFiles, Run, Handled, returned, deadlocked, panicked, out_of_fuel,
}
use fyles_release.P2p.FileTracker.Responses.{receive_response}
use fyles_release.P2p.FileTracker.Errors.{ReceiveError, handle_receive_error}
use fyles_release.P2p.FileTracker.Accounts.{
  Continues, held, ended, accounted, Balances, BalancesHandled,
}
use fyles_release.P2p.FileTracker.Accounts.Answers.{is_expected}
use fyles_release.P2p.FileTracker.Accounts.Whole.{receive_response_accounts}
use fyles_release.P2p.FileTracker.Accounts.Errors.{handle_receive_error_accounts}

-- What the account says of a call that returned this run.
returned-Balances :
    {W F : Type 0} (id : FylesId) (premise : Type 0) (before : ℕ) (handled : Handled (Run W F))
    (run : Run W F)
    → handled ≡ returned run
    → BalancesHandled id premise before handled
    → Balances premise before (accounted id run)
returned-Balances id premise before (returned found) run e h =
    let same : found ≡ run = cc in rw (← same) h
returned-Balances id premise before deadlocked run e h = cc
returned-Balances id premise before panicked run e h = cc
returned-Balances id premise before out_of_fuel run e h = cc

module _ {W F : Type 0} (id : FylesId) (o : Outside W F) (peer : PeerId) where
  -- A response that returned never multiplies a file: how often the tracker holds the file of an id
  -- and how often the brain heard an outcome of it add up to no more than before.
  pub receive_response_at_most :
      (contact : Option ContactId) (request : Option ℕ) (response : FileResponse)
      (entry : Option (PeerFiles F)) (s : Scene W) (run : Run W F)
      → receive_response o peer contact request response entry s ≡ returned run
      → accounted id run ≤ held id entry + ended id s.log
  receive_response_at_most contact request response entry s run e =
      (returned-Balances id (Continues o × (is_expected response entry ≡ true))
        (held id entry + ended id s.log) (receive_response o peer contact request response entry s)
        run e (receive_response_accounts id o peer contact request response entry s)).0

  -- A response that returned keeps account of every file: how often the tracker holds the file of
  -- an id and how often the brain heard an outcome of it add up to the same before and after, if no
  -- refused ContinueTransfer and no RejectChunk for a file that is not in status Sending occurs.
  pub receive_response_exact :
      (contact : Option ContactId) (request : Option ℕ) (response : FileResponse)
      (entry : Option (PeerFiles F)) (s : Scene W) (run : Run W F)
      → Continues o
      → is_expected response entry ≡ true
      → receive_response o peer contact request response entry s ≡ returned run
      → accounted id run ≡ held id entry + ended id s.log
  receive_response_exact contact request response entry s run continues expected e =
      let balance =
        returned-Balances id (Continues o × (is_expected response entry ≡ true))
          (held id entry + ended id s.log)
          (receive_response o peer contact request response entry s) run e
          (receive_response_accounts id o peer contact request response entry s) in
      let least = balance.1 (continues, expected) in omega (arith, balance.0, least)

  -- An error in the place of a response keeps account of every file, as long as no ContinueTransfer
  -- is refused: how often the tracker holds the file of an id and how often the brain heard an
  -- outcome of it add up to the same before and after.
  pub handle_receive_error_exact :
      (e : ReceiveError) (entry : Option (PeerFiles F)) (s : Scene W)
      → Continues o
      → accounted id (handle_receive_error o peer e entry s) ≡ held id entry + ended id s.log
  handle_receive_error_exact e entry s continues =
      let balance = handle_receive_error_accounts id o peer e entry s in
      let least = balance.1 continues in omega (arith, balance.0, least)
