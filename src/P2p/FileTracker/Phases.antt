-- ===== src/P2p/FileTracker/Phases.antt =====
-- fyles_service/p2p/src/event_loop/filerequest/file_tracker.rs: what the tracker promises about the
-- sending slot of a peer, as a machine that offers a file, sends it, finishes it and delivers it, and
-- what holds of the files between two calls.
pub mod Next
pub mod Reset
pub mod Chunks
pub mod Responses
pub mod Answers
pub mod Whole
pub mod Others
pub mod Runs
pub mod Delivery
use fyles_release.Base.{ℕ, ◌≡◌, Bool, true, false, Option, none, some, List, [], ◌∷◌, ◌++◌}
use fyles_release.P2p.Types.{
  FylesId, FileResponse, accept_new_transfer, reject_new_transfer, accept_continue_transfer,
  restart_continue_transfer, reject_continue_transfer, confirm_chunk, reject_chunk, confirm_abort,
  confirm_done, reject_done, acknowledge_protocol_violation, protocol_violation, internal_error,
}
use fyles_release.P2p.Transfer.SendData.{LockedSendData}
use fyles_release.Core.Domain.{
  prepared, sending, interrupted, pending_sent, SendStatus, pending, in_progress, sent, rejected,
  failed, unknown, PendingFile,
}
use fyles_release.P2p.FileTracker.{
  file_sent, file_failed, file_missing, file_rejected, file_io_error, file_sending, file_send_reset,
  Effect, notify, plugin, Scene, PeerFiles, Run, Handled, returned, deadlocked, panicked,
  out_of_fuel,
}
use fyles_release.P2p.FileTracker.Cancel.{can_wait}

pub data Phase : Type 0 where
  idle : Phase
  offered transferring finishing : FylesId → Phase

-- What a call is to the machine: the peer accepts a file, acknowledges a chunk, or confirms the end, or
-- it is any other call.
pub data Kind : Type 0 where
  accepting acknowledging delivering other : Kind

abbrev pub can_finish : Kind → Bool
can_finish accepting = true
can_finish acknowledging = true
can_finish delivering = false
can_finish other = false

abbrev pub kind_of : FileResponse → Kind
kind_of accept_new_transfer = accepting
kind_of restart_continue_transfer = accepting
kind_of (accept_continue_transfer offset) = accepting
kind_of confirm_chunk = acknowledging
kind_of confirm_done = delivering
kind_of reject_new_transfer = other
kind_of reject_continue_transfer = other
kind_of reject_chunk = other
kind_of confirm_abort = other
kind_of reject_done = other
kind_of acknowledge_protocol_violation = other
kind_of protocol_violation = other
kind_of internal_error = other

-- A step of the machine in a call of this kind, with the files that were delivered, the last first.
pub data Step (k : Kind) : Phase → List FylesId → Phase → List FylesId → Type 0 where
  offer : (id : FylesId) (l : List FylesId) → Step k idle l (offered id) l
  accept :
      (id : FylesId) (l : List FylesId) → k ≡ accepting → Step k (offered id) l (transferring id) l
  finish :
      (id : FylesId) (l : List FylesId)
      → can_finish k ≡ true
      → Step k (transferring id) l (finishing id) l
  deliver :
      (id : FylesId) (l : List FylesId) → k ≡ delivering → Step k (finishing id) l idle (id ∷ l)
  leave : (p : Phase) (l : List FylesId) → Step k p l idle l

pub data Steps (k : Kind) (p : Phase) (l : List FylesId) : Phase → List FylesId → Type 0 where
  here : Steps k p l p l
  next : {q r : Phase} {m n : List FylesId} → Steps k p l q m → Step k q m r n → Steps k p l r n

pub Steps-trans :
    {k : Kind} {p q : Phase} {l m : List FylesId} {r : Phase} {n : List FylesId}
    → Steps k p l q m
    → Steps k q m r n
    → Steps k p l r n
Steps-trans a here = a
Steps-trans a (next b s) = next (Steps-trans a b) s

abbrev pub phase_of : FylesId → SendStatus → Phase
phase_of id (in_progress prepared t) = offered id
phase_of id (in_progress sending t) = transferring id
phase_of id (in_progress pending_sent t) = finishing id
phase_of id (in_progress interrupted t) = idle
phase_of id pending = idle
phase_of id sent = idle
phase_of id rejected = idle
phase_of id failed = idle
phase_of id (unknown text) = idle

abbrev pub slot_phase : {F : Type 0} → Option (LockedSendData ℕ F) → Phase
slot_phase none = idle
slot_phase (some d) = phase_of d.pending_file.id d.pending_file.status

abbrev pub entry_phase : {F : Type 0} → Option (PeerFiles F) → Phase
entry_phase none = idle
entry_phase (some files) = slot_phase files.sending

-- The files that the brain heard were sent.
abbrev pub delivered : List Effect → List FylesId
delivered [] = []
delivered (plugin call ∷ log) = delivered log
delivered (notify (file_sent id) ∷ log) = id ∷ delivered log
delivered (notify (file_failed id) ∷ log) = delivered log
delivered (notify (file_missing id) ∷ log) = delivered log
delivered (notify (file_rejected id) ∷ log) = delivered log
delivered (notify (file_io_error id e) ∷ log) = delivered log
delivered (notify (file_sending id status) ∷ log) = delivered log
delivered (notify (file_send_reset id status retries reason) ∷ log) = delivered log

-- The statuses of a file in the slot.
abbrev pub is_active : SendStatus → Bool
is_active (in_progress prepared t) = true
is_active (in_progress sending t) = true
is_active (in_progress pending_sent t) = true
is_active (in_progress interrupted t) = false
is_active pending = false
is_active sent = false
is_active rejected = false
is_active failed = false
is_active (unknown text) = false

abbrev pub AllWait : List PendingFile → Type 0
AllWait [] = Unit
AllWait (p ∷ ps) = (can_wait p.status ≡ true) × AllWait ps

abbrev pub IsActiveSlot : {F : Type 0} → Option (LockedSendData ℕ F) → Type 0
IsActiveSlot none = Unit
IsActiveSlot (some d) = is_active d.pending_file.status ≡ true

-- Every file of the queue is `Pending` or `Interrupted`, and the one in the slot is neither.
abbrev pub IsTracked : {F : Type 0} → Option (PeerFiles F) → Type 0
IsTracked none = Unit
IsTracked (some files) = AllWait files.pending × IsActiveSlot files.sending

-- A run takes steps of the machine, and keeps the files tracked.
abbrev pub Refines : {W F : Type 0} → Kind → Option (PeerFiles F) → Scene W → Run W F → Type 0
Refines k entry s run =
    Steps k (entry_phase entry) (delivered s.log) (entry_phase run.files) (delivered run.scene.log)
    × (IsTracked entry → IsTracked run.files)

abbrev pub RefinesHandled :
    {W F : Type 0} → Kind → Option (PeerFiles F) → Scene W → Handled (Run W F) → Type 0
RefinesHandled k entry s (returned run) = Refines k entry s run
RefinesHandled k entry s deadlocked = Unit
RefinesHandled k entry s panicked = Unit
RefinesHandled k entry s out_of_fuel = Unit

pub AllWait-append : (ps qs : List PendingFile) → AllWait ps → AllWait qs → AllWait (ps ++ qs)
AllWait-append [] qs h k = k
AllWait-append (p ∷ ps) qs h k = (h.0, AllWait-append ps qs h.1 k)

-- A run after some steps that an operation takes by itself.
pub precede :
    {k : Kind} {W F : Type 0} (entry seen : Option (PeerFiles F)) (s s' : Scene W)
    → Steps k (entry_phase entry) (delivered s.log) (entry_phase seen) (delivered s'.log)
    → (IsTracked entry → IsTracked seen)
    → (handled : Handled (Run W F)) → RefinesHandled k seen s' handled
    → RefinesHandled k entry s handled
precede entry seen s s' steps tracked (returned run) h =
    (Steps-trans steps h.0, λ k. h.1 (tracked k))
precede entry seen s s' steps tracked deadlocked h = tt
precede entry seen s s' steps tracked panicked h = tt
precede entry seen s s' steps tracked out_of_fuel h = tt
