-- ===== src/P2p/Transfer/SendData.antt =====
-- fyles_service/p2p/src/event_loop/filerequest/send_manager.rs: `LockedSendData`, which gives its
-- contents to the right contact only.
use fyles_release.Base.{
  ℕ, ◌≡◌, ◌↔◌, ◌⊎◌, Bool, true, false, not, Option, none, some, if◌then◌else◌, ◌==◌, arith,
}
use fyles_release.P2p.Types.{FylesId, ContactId}
use fyles_release.P2p.FileReader.{FileApi}
use fyles_release.Core.Domain.{PendingFile}
use fyles_release.P2p.Transfer.SendManager.{SendManager}
use fyles_release.P2p.Transfer.SendManager

pub record LockedSendData (RequestId F : Type 0) : Type 0 where
  pub send_manager : SendManager RequestId F
  pub pending_file : PendingFile
  pub must_verify_contact_id : Bool

-- `SendDataMut`, `SendDataRef` and `SendData`.
pub record SendData (RequestId F : Type 0) : Type 0 where
  pub send_manager : SendManager RequestId F
  pub pending_file : PendingFile

abbrev pub is_some_and_equal : Option ContactId → ContactId → Bool
is_some_and_equal none contact = false
is_some_and_equal (some connected) contact = connected == contact

module _ {RequestId F : Type 0} where
  unfoldable pub new : FileApi F → PendingFile → FylesId → ℕ → F → LockedSendData RequestId F
  new api pending_file transfer_id file_size_bytes file = record {
    send_manager = SendManager.new api transfer_id file_size_bytes file;
    pending_file = pending_file;
    must_verify_contact_id = true;
  }

  unfoldable pub get_transfer_id : LockedSendData RequestId F → FylesId
  get_transfer_id d = d.send_manager.transfer_id

  unfoldable pub get_file_size_bytes : LockedSendData RequestId F → ℕ
  get_file_size_bytes d = d.send_manager.file_size_bytes

  abbrev pub contents : LockedSendData RequestId F → SendData RequestId F
  contents d = record { send_manager = d.send_manager; pending_file = d.pending_file }

  -- `unlock_mut`, `unlock_into` and `unlock`, which differ in what they borrow.
  unfoldable pub unlock :
      LockedSendData RequestId F → Option ContactId → Option (SendData RequestId F)
  unlock d connected =
      if not d.must_verify_contact_id
      then some (contents d)
      else (if is_some_and_equal connected d.pending_file.contact_id
          then some (contents d)
          else none)

  -- The lock opens for the contact that the file is for, and for anybody if no contact must be
  -- verified, and for nobody else; it gives what it holds.
  pub unlock_lem :
      (d : LockedSendData RequestId F) (connected : Option ContactId)
      → (unlock d connected ≡ some (contents d))
        ↔ ((d.must_verify_contact_id ≡ false) ⊎ (connected ≡ some d.pending_file.contact_id))
  unfolding unlock
  unlock_lem d none = (λ h. ground (arith, h), λ h. ground (arith, h))
  unlock_lem d (some connected) = (λ h. ground (arith, h), λ h. ground (arith, h))
