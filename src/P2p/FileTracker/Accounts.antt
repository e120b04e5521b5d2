-- ===== src/P2p/FileTracker/Accounts.antt =====
-- fyles_service/p2p/src/event_loop/filerequest/file_tracker.rs: where a file is, by its id: how often
-- it waits or is sent, and how often the brain heard that it left the tracker.
pub mod Next
pub mod Reset
pub mod Chunks
pub mod Responses
pub mod Answers
pub mod Whole
pub mod Errors
pub mod Exact
use fyles_release.Base.{
  ℕ, ◌+◌, ◌≤◌, ◌≡◌, ◌≢◌, ◌==◌, Option, none, some, List, [], ◌∷◌, ◌++◌, if◌then◌else◌, arith,
}
use fyles_release.P2p.Types.{FylesId, ContactId, PeerId, continue_transfer}
use fyles_release.P2p.Transfer.SendData.{LockedSendData}
use fyles_release.Core.Domain.{PendingFile}
use fyles_release.P2p.FileTracker.{
  NetworkNodeAction, file_sent, file_failed, file_missing, file_rejected, file_io_error,
  file_sending, file_send_reset, Effect, notify, plugin, Outside, PeerFiles, Run, Handled, returned,
  deadlocked, panicked, out_of_fuel,
}

-- A session that never refuses to carry on a transfer.
abbrev pub Continues : {W F : Type 0} → Outside W F → Type 0
Continues {W} o =
    (w : W) (peer : PeerId) (contact : Option ContactId) (filerequest transfer : FylesId)
    → (o.send w peer contact (continue_transfer filerequest transfer)).0 ≢ none

module _ (id : FylesId) where
  abbrev pub one : FylesId → ℕ
  one found = if found == id then 1 else 0

  abbrev pub waiting : List PendingFile → ℕ
  waiting [] = 0
  waiting (p ∷ ps) = one p.id + waiting ps

  abbrev pub in_slot : {F : Type 0} → Option (LockedSendData ℕ F) → ℕ
  in_slot none = 0
  in_slot (some d) = one d.pending_file.id

  -- How often the tracker holds the file.
  abbrev pub held : {F : Type 0} → Option (PeerFiles F) → ℕ
  held none = 0
  held (some files) = waiting files.pending + in_slot files.sending

  abbrev pub ended_by : NetworkNodeAction → ℕ
  ended_by (file_sent found) = one found
  ended_by (file_failed found) = one found
  ended_by (file_missing found) = one found
  ended_by (file_rejected found) = one found
  ended_by (file_io_error found e) = one found
  ended_by (file_sending found status) = 0
  ended_by (file_send_reset found status retries reason) = 0

  -- How often the brain heard an outcome of the file.
  abbrev pub ended : List Effect → ℕ
  ended [] = 0
  ended (notify action ∷ log) = ended_by action + ended log
  ended (plugin call ∷ log) = ended log

  abbrev pub accounted : {W F : Type 0} → Run W F → ℕ
  accounted run = held run.files + ended run.scene.log

-- Nothing is added, and nothing gets lost where the premise holds.
abbrev pub Balances : Type 0 → ℕ → ℕ → Type 0
Balances premise before after = (after ≤ before) × (premise → before ≤ after)

-- The same of an operation that returned.
abbrev pub BalancesHandled : {W F : Type 0} → FylesId → Type 0 → ℕ → Handled (Run W F) → Type 0
BalancesHandled id premise before (returned run) = Balances premise before (accounted id run)
BalancesHandled id premise before deadlocked = Unit
BalancesHandled id premise before panicked = Unit
BalancesHandled id premise before out_of_fuel = Unit

pub waiting-append :
    (id : FylesId) (ps qs : List PendingFile)
    → waiting id (ps ++ qs) ≡ waiting id ps + waiting id qs
waiting-append id [] qs = omega arith
waiting-append id (p ∷ ps) qs = omega (arith, waiting-append id ps qs)
