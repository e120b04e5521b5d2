-- ===== src/P2p/FileTracker/Phases/Next.antt =====
-- fyles_service/p2p/src/event_loop/filerequest/file_tracker.rs: `send_next` starts from a free slot,
-- and offers a file or leaves the slot free.
use fyles_release.Base.{ℕ, ◌≡◌, refl, true, Option, none, some, List, [], ◌∷◌, on_some-Holds}
use fyles_release.P2p.Types.{PeerId, new_transfer, continue_transfer}
use fyles_release.P2p.Transfer.SendData
use fyles_release.P2p.Transfer.SendData.{LockedSendData}
use fyles_release.Core.Domain.{
  TransferData, prepared, sending, interrupted, pending_sent, SendStatus, pending, in_progress,
  unknown, PendingFile,
}
use fyles_release.Core.Domain
use fyles_release.P2p.FileTracker.{notify, OpenFile, Outside, Scene, tell, Run}
use fyles_release.P2p.FileTracker.Next.{
  Attempt, given_up, put_back, offered, continued, offer_new, offer_continue, offer, try_sized,
  try_opened, try_at, try_next, progress_of, follow, send_next,
}
use fyles_release.P2p.FileTracker.Phases.{
  Kind, Phase, idle, phase_of, is_active, Steps, here, next, AllWait, IsTracked, entry_phase,
  delivered,
}
use fyles_release.P2p.FileTracker.Phases

module _ {W F : Type 0} (o : Outside W F) (peer : PeerId) where
  abbrev IsPrepared : LockedSendData ℕ F → Type 0
  IsPrepared d =
      (phase_of d.pending_file.id d.pending_file.status ≡ Phases.offered d.pending_file.id)
      × (is_active d.pending_file.status ≡ true)

  -- An attempt reports no delivery, and a file that it puts into the slot is `Prepared`.
  abbrev IsQuiet : Scene W → Attempt W F → Type 0
  IsQuiet s (given_up action s') = delivered (notify action ∷ s'.log) ≡ delivered s.log
  IsQuiet s (put_back s') = delivered s'.log ≡ delivered s.log
  IsQuiet s (offered d s') = (delivered s'.log ≡ delivered s.log) × IsPrepared d
  IsQuiet s (continued none s') = delivered s'.log ≡ delivered s.log
  IsQuiet s (continued (some d) s') = (delivered s'.log ≡ delivered s.log) × IsPrepared d

  offer_new-IsQuiet :
      (p : PendingFile) (f : OpenFile F) (size : ℕ) (s : Scene W)
      → IsQuiet s (offer_new o peer p f size s)
  unfolding offer_new SendData.new
  offer_new-IsQuiet p f size s =
      let (transfer, w) = o.new_id s.world in
      on_some-Holds {B = Attempt W F} (IsQuiet s)
        (o.send w peer (some p.contact_id)
          (new_transfer p.target_filerequest_id f.file_name size transfer)).0
        (λ e. refl) (λ request e. (refl, (refl, refl)))

  offer_continue-IsQuiet :
      (p : PendingFile) (t : TransferData) (f : OpenFile F) (size : ℕ) (s : Scene W)
      → IsQuiet s (offer_continue o peer p t f size s)
  unfolding offer_continue SendData.new
  offer_continue-IsQuiet p t f size s =
      on_some-Holds {B = Attempt W F} (IsQuiet s)
        (o.send s.world peer (some p.contact_id)
          (continue_transfer p.target_filerequest_id t.transfer_id)).0
        (λ e. refl) (λ request e. (refl, (refl, refl)))

  offer-IsQuiet :
      (status : SendStatus) (p : PendingFile) (f : OpenFile F) (size : ℕ) (s : Scene W)
      → IsQuiet s (offer o peer status p f size s)
  unfolding offer
  offer-IsQuiet pending p f size s = offer_new-IsQuiet p f size s
  offer-IsQuiet (in_progress interrupted t) p f size s = offer_continue-IsQuiet p t f size s
  offer-IsQuiet (in_progress prepared t) p f size s = refl
  offer-IsQuiet (in_progress sending t) p f size s = refl
  offer-IsQuiet (in_progress pending_sent t) p f size s = refl
  offer-IsQuiet Domain.sent p f size s = refl
  offer-IsQuiet Domain.rejected p f size s = refl
  offer-IsQuiet Domain.failed p f size s = refl
  offer-IsQuiet (unknown text) p f size s = refl

  try_sized-IsQuiet :
      (p : PendingFile) (f : OpenFile F) (size : Option ℕ) (s : Scene W)
      → IsQuiet s (try_sized o peer p f size s)
  unfolding try_sized
  try_sized-IsQuiet p f none s = refl
  try_sized-IsQuiet p f (some size) s = offer-IsQuiet p.status p f size s

  try_opened-IsQuiet :
      (p : PendingFile) (opened : Option (OpenFile F)) (s : Scene W)
      → IsQuiet s (try_opened o peer p opened s)
  unfolding try_opened
  try_opened-IsQuiet p none s = refl
  try_opened-IsQuiet p (some f) s = try_sized-IsQuiet p f (o.metadata_len f.file) s

  -- Only the log of the scene counts.
  rescene :
      (s s' : Scene W)
      → delivered s.log ≡ delivered s'.log
      → (a : Attempt W F) → IsQuiet s a
      → IsQuiet s' a
  rescene s s' same (given_up action t) h = rw (← same) h
  rescene s s' same (put_back t) h = rw (← same) h
  rescene s s' same (offered d t) h = (rw (← same) h.0, h.1)
  rescene s s' same (continued none t) h = rw (← same) h
  rescene s s' same (continued (some d) t) h = (rw (← same) h.0, h.1)

  try_at-IsQuiet :
      (p : PendingFile) (progress : Option ℕ) (s : Scene W) → IsQuiet s (try_at o peer p progress s)
  unfolding try_at
  try_at-IsQuiet p none s = refl
  try_at-IsQuiet p (some progress) s =
      let (opened, w) = o.open_file s.world p.file_path p.id progress in
      rescene (record s { world = w }) s refl (try_opened o peer p opened (record s { world = w }))
        (try_opened-IsQuiet p opened (record s { world = w }))

  -- What `send_next` gives for this queue and log.
  abbrev pub FromIdle : Kind → List PendingFile → Scene W → Run W F → Type 0
  FromIdle k ps s run =
      Steps k idle (delivered s.log) (entry_phase run.files) (delivered run.scene.log)
      × (AllWait ps → IsTracked run.files)

  follow-FromIdle :
      {k : Kind} (p : PendingFile) (ps : List PendingFile) (send : Scene W → Run W F) (s : Scene W)
      → ((s' : Scene W) → FromIdle k ps s' (send s'))
      → (a : Attempt W F) → IsQuiet s a
      → FromIdle k (p ∷ ps) s (follow o peer p ps none send a)
  unfolding follow
  follow-FromIdle p ps send s ih (given_up action s') h =
      let (steps, tracked) = ih (tell (notify action) s') in (rw (← h) steps, λ k. tracked k.1)
  follow-FromIdle p ps send s ih (put_back s') h = (rw h here, λ k. (k, tt))
  follow-FromIdle p ps send s ih (offered d s') h = (
    rw (h.0, h.1.0) (next here (Phases.offer d.pending_file.id (delivered s.log))),
    λ k. (k.1, h.1.1),
  )
  follow-FromIdle p ps send s ih (continued none s') h = (rw h here, λ k. (k.1, tt))
  follow-FromIdle p ps send s ih (continued (some d) s') h = (
    rw (h.0, h.1.0) (next here (Phases.offer d.pending_file.id (delivered s.log))),
    λ k. (k.1, h.1.1),
  )

  pub send_next-FromIdle :
      {k : Kind} (ps : List PendingFile) (s : Scene W)
      → FromIdle k ps s (send_next o peer ps none s)
  unfolding send_next try_next
  send_next-FromIdle [] s = (here, λ k. tt)
  send_next-FromIdle (p ∷ ps) s =
      follow-FromIdle p ps (send_next o peer ps none) s (λ s'. send_next-FromIdle ps s')
        (try_next o peer p s) (try_at-IsQuiet p (progress_of p.status) s)
