-- ===== src/P2p/FileTracker/Verify.antt =====
-- fyles_service/p2p/src/event_loop/filerequest/file_tracker.rs: `verify_target_contact_id`.
use fyles_release.Base.{Bool, true, false, Option, none, some, if◌then◌else◌}
use fyles_release.P2p.Types.{ContactId}
use fyles_release.P2p.Transfer.SendData.{is_some_and_equal}
use fyles_release.P2p.FileTracker.{Outside, Scene, Handled, returned, deadlocked}

pub data ContactVerificationResult : Type 0 where
  verified contact_is_unknown verification_failed internal_error : ContactVerificationResult

-- The answer to whether the target is known. Every caller holds the lock of the files, which
-- `reset_all_on_internal_error_for` waits for after an error.
unfoldable pub judge :
    {W : Type 0}
    → ContactId
    → Option ContactId
    → Option Bool
    → Scene W
    → Handled (ContactVerificationResult × Scene W)
judge target connected none s = deadlocked
judge target connected (some true) s =
    if is_some_and_equal connected target
    then returned (verified, s)
    else returned (verification_failed, s)
judge target connected (some false) s = returned (contact_is_unknown, s)

unfoldable pub verify_target_contact_id :
    {W F : Type 0}
    → Outside W F
    → ContactId
    → Option ContactId
    → Scene W
    → Handled (ContactVerificationResult × Scene W)
verify_target_contact_id o target connected s =
    let (res, w) = o.is_contact_known s.world target in
    judge target connected res (record s { world = w })
