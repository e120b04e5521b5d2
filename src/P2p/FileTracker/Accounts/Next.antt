-- ===== src/P2p/FileTracker/Accounts/Next.antt =====
-- fyles_service/p2p/src/event_loop/filerequest/file_tracker.rs: `send_next` and `complete_file` keep
-- account of every file.
use fyles_release.Base.{on_some, ℕ, ◌+◌, ◌≡◌, Option, none, some, List, [], ◌∷◌, arith, refl}
use fyles_release.P2p.Types.{FylesId, PeerId}
use fyles_release.P2p.Transfer.SendData
use fyles_release.P2p.Transfer.SendData.{LockedSendData}
use fyles_release.Core.Domain.{
  TransferData, prepared, sending, interrupted, pending_sent, SendStatus, pending, in_progress,
  unknown, PendingFile,
}
use fyles_release.Core.Domain
use fyles_release.P2p.FileTracker.{
  FileOutcome, OpenFile, Outside, Scene, notify, tell, PeerFiles, Run, sent, failed, missing,
  rejected, io_error,
}
use fyles_release.P2p.FileTracker.Next.{
  outcome_action, Attempt, given_up, put_back, offered, continued, offer_new, offer_continue, offer,
  try_sized, try_opened, try_at, try_next, progress_of, follow, send_next, complete_file,
}
use fyles_release.P2p.FileTracker.Accounts.{
  Continues, one, waiting, ended, ended_by, accounted, Balances,
}

module _ {W F : Type 0} (id : FylesId) (o : Outside W F) (peer : PeerId) where
  -- An attempt writes no log, is about this file, and drops it only where a continuation is refused.
  abbrev pub IsAttempt : PendingFile → Scene W → Attempt W F → Type 0
  IsAttempt p s (given_up action s') =
      (ended id s'.log ≡ ended id s.log) × (ended_by id action ≡ one id p.id)
  IsAttempt p s (put_back s') = ended id s'.log ≡ ended id s.log
  IsAttempt p s (offered d s') =
      (ended id s'.log ≡ ended id s.log) × (one id d.pending_file.id ≡ one id p.id)
  IsAttempt p s (continued none s') = (ended id s'.log ≡ ended id s.log) × (Continues o → ⊥)
  IsAttempt p s (continued (some d) s') =
      (ended id s'.log ≡ ended id s.log) × (one id d.pending_file.id ≡ one id p.id)

  -- Only the log of the scene counts.
  rescene :
      (p : PendingFile) (s s' : Scene W)
      → ended id s.log ≡ ended id s'.log
      → (a : Attempt W F) → IsAttempt p s a
      → IsAttempt p s' a
  rescene p s s' same (given_up action t) h = (omega (arith, h.0), h.1)
  rescene p s s' same (put_back t) h = omega (arith, h)
  rescene p s s' same (offered d t) h = (omega (arith, h.0), h.1)
  rescene p s s' same (continued none t) h = (omega (arith, h.0), h.1)
  rescene p s s' same (continued (some d) t) h = (omega (arith, h.0), h.1)

  offer_new-IsAttempt :
      (p : PendingFile) (f : OpenFile F) (size : ℕ) (s : Scene W)
      → IsAttempt p s (offer_new o peer p f size s)
  unfolding offer_new SendData.new on_some
  offer_new-IsAttempt p f size s = ground arith

  offer_continue-IsAttempt :
      (p : PendingFile) (t : TransferData) (f : OpenFile F) (size : ℕ) (s : Scene W)
      → IsAttempt p s (offer_continue o peer p t f size s)
  unfolding offer_continue SendData.new on_some
  offer_continue-IsAttempt p t f size s = ground (
    arith,
    λ (k : Continues o). k s.world peer (some p.contact_id) p.target_filerequest_id t.transfer_id,
  )

  offer-IsAttempt :
      (status : SendStatus) (p : PendingFile) (f : OpenFile F) (size : ℕ) (s : Scene W)
      → IsAttempt p s (offer o peer status p f size s)
  unfolding offer
  offer-IsAttempt pending p f size s = offer_new-IsAttempt p f size s
  offer-IsAttempt (in_progress interrupted t) p f size s = offer_continue-IsAttempt p t f size s
  offer-IsAttempt (in_progress prepared t) p f size s = (refl, refl)
  offer-IsAttempt (in_progress sending t) p f size s = (refl, refl)
  offer-IsAttempt (in_progress pending_sent t) p f size s = (refl, refl)
  offer-IsAttempt Domain.sent p f size s = (refl, refl)
  offer-IsAttempt Domain.rejected p f size s = (refl, refl)
  offer-IsAttempt Domain.failed p f size s = (refl, refl)
  offer-IsAttempt (unknown text) p f size s = (refl, refl)

  try_sized-IsAttempt :
      (p : PendingFile) (f : OpenFile F) (size : Option ℕ) (s : Scene W)
      → IsAttempt p s (try_sized o peer p f size s)
  unfolding try_sized
  try_sized-IsAttempt p f none s = (refl, refl)
  try_sized-IsAttempt p f (some size) s = offer-IsAttempt p.status p f size s

  try_opened-IsAttempt :
      (p : PendingFile) (opened : Option (OpenFile F)) (s : Scene W)
      → IsAttempt p s (try_opened o peer p opened s)
  unfolding try_opened
  try_opened-IsAttempt p none s = (refl, refl)
  try_opened-IsAttempt p (some f) s = try_sized-IsAttempt p f (o.metadata_len f.file) s

  try_at-IsAttempt :
      (p : PendingFile) (progress : Option ℕ) (s : Scene W)
      → IsAttempt p s (try_at o peer p progress s)
  unfolding try_at
  try_at-IsAttempt p none s = (refl, refl)
  try_at-IsAttempt p (some progress) s =
      let (opened, w) = o.open_file s.world p.file_path p.id progress in
      rescene p (record s { world = w }) s refl
        (try_opened o peer p opened (record s { world = w }))
        (try_opened-IsAttempt p opened (record s { world = w }))

  follow-Balances :
      (p : PendingFile) (ps : List PendingFile) (next : Scene W → Run W F) (s : Scene W)
      → ((s' : Scene W)
          → Balances (Continues o) (waiting id ps + ended id s'.log) (accounted id (next s')))
      → (a : Attempt W F) → IsAttempt p s a
      → Balances
          (Continues o)
          (waiting id (p ∷ ps) + ended id s.log)
          (accounted id (follow o peer p ps none next a))
  unfolding follow
  follow-Balances p ps next s ih (given_up action s') h =
      ground (arith, ih (tell (notify action) s'), h)
  follow-Balances p ps next s ih (put_back s') h = omega (arith, h)
  follow-Balances p ps next s ih (offered d s') h = omega (arith, h)
  follow-Balances p ps next s ih (continued none s') h = (omega (arith, h), λ k. absurd (h.1 k))
  follow-Balances p ps next s ih (continued (some d) s') h = omega (arith, h)

  -- A send without a file in the slot.
  pub send_next-Balances :
      (ps : List PendingFile) (s : Scene W)
      → Balances
          (Continues o)
          (waiting id ps + ended id s.log)
          (accounted id (send_next o peer ps none s))
  unfolding send_next try_next
  send_next-Balances [] s = (omega arith, λ k. omega arith)
  send_next-Balances (p ∷ ps) s =
      follow-Balances p ps (send_next o peer ps none) s (λ s'. send_next-Balances ps s')
        (try_next o peer p s) (try_at-IsAttempt p (progress_of p.status) s)

  ended_by-outcome_action :
      (outcome : FileOutcome) (found : FylesId)
      → ended_by id (outcome_action outcome found) ≡ one id found
  ended_by-outcome_action sent found = refl
  ended_by-outcome_action failed found = refl
  ended_by-outcome_action missing found = refl
  ended_by-outcome_action rejected found = refl
  ended_by-outcome_action (io_error e) found = refl

  -- The file that is completed is in the slot no more.
  pub complete_file-Balances :
      (files : PeerFiles F) (found : FylesId) (outcome : FileOutcome) (s : Scene W)
      → files.sending ≡ none
      → Balances
          (Continues o)
          (one id found + waiting id files.pending + ended id s.log)
          (accounted id (complete_file o peer files found outcome s))
  unfolding complete_file
  complete_file-Balances files found outcome s empty =
      let sent_next =
        send_next-Balances files.pending (tell (notify (outcome_action outcome found)) s) in
      rw empty (omega (arith, sent_next, ended_by-outcome_action outcome found))
