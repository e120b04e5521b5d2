-- ===== src/P2p/FileTracker/Isolation.antt =====
-- fyles_service/p2p/src/event_loop/filerequest/file_tracker.rs: `cancel_file` finds the peer that
-- holds the file.
use fyles_release.Base.{
  ◌↔◌, ◌≤◌, ◌<◌, ◌≡◌, refl, Bool, true, false, not, ◌||◌, Bool-cases, inl, inr, none, some,
  Option-cases, List, [], ◌∷◌, any, retain, length, ◌==◌, nat_eq, ==_iff, arith, on_some,
}
use fyles_release.Base.HashMap.{lookup, IsMap}
use fyles_release.P2p.Types.{FylesId, PeerId}
use fyles_release.Core.Domain.{PendingFile}
use fyles_release.P2p.FileTracker.{Outside, Scene, PeerFiles, Run}
use fyles_release.P2p.FileTracker.Cancel.{sending_passes, cancel_pending, cancel_files}
use fyles_release.P2p.FileTracker.Peers.{Files, holds_file, find_peer, cancelled, cancel_file}

length-retain_le :
    (test : PendingFile → Bool) (ps : List PendingFile) → length (retain test ps) ≤ length ps
length-retain_le test [] = omega arith
length-retain_le test (p ∷ ps) = ground (arith, length-retain_le test ps)

length-retain-any :
    (test : PendingFile → Bool) (ps : List PendingFile)
    → any test ps ≡ true
    → length (retain (λ p. not (test p)) ps) < length ps
length-retain-any test [] h = cc
length-retain-any test (p ∷ ps) h =
    ground (arith, h, length-retain-any test ps, length-retain_le (λ q. not (test q)) ps)

module _ {F : Type 0} (id : FylesId) where
  find_peer_holds :
      (m : Files F) (peer : PeerId)
      → IsMap m
      → find_peer id m ≡ some peer
      → (files : PeerFiles F) × (lookup peer m ≡ some files) × (holds_file id files ≡ true)
  unfolding find_peer lookup
  find_peer_holds [] peer w h = cc
  find_peer_holds ((j, files) ∷ m) peer w h = elim (Bool-cases (holds_file id files)) [
    | inl e ↦ (files, ground (arith, h, e, ==_iff j peer), e)
    | inr e ↦
        let (files', found, holds) = find_peer_holds m peer w.1 (ground (arith, h, e)) in
        (files', ground (arith, h, e, found, w.0, ==_iff j peer), holds)
  ]

  -- A peer that is not found holds no copy of the file.
  find_peer-none :
      (m : Files F) (peer : PeerId) (files : PeerFiles F)
      → find_peer id m ≡ none
      → lookup peer m ≡ some files
      → holds_file id files ≡ false
  unfolding find_peer lookup
  find_peer-none [] peer files h l = cc
  find_peer-none ((j, files') ∷ m) peer files h l = elim (Bool-cases (holds_file id files')) [
    | inl e ↦ absurd (ground (arith, h, e))
    | inr e ↦ elim (Bool-cases (j == peer)) [
      | inl q ↦ let same : files' ≡ files = ground (arith, l, q) in rw (← same) e
      | inr q ↦ find_peer-none m peer files (ground (arith, h, e)) (ground (arith, l, q))
    ]
  ]

module _ {W F : Type 0} (o : Outside W F) (peer : PeerId) where
  pending_cancelled :
      (test : PendingFile → Bool) (files : PeerFiles F) (s : Scene W)
      → any test files.pending ≡ true
      → (cancel_pending test files s).0 ≡ true
  unfolding cancel_pending
  pending_cancelled test files s h = ground (arith, length-retain-any test files.pending h)

  -- The files of the peer that holds the file are cancelled.
  held_cancelled :
      (test : PendingFile → Bool) (files : PeerFiles F) (s : Scene W)
      → (sending_passes test files || any test files.pending) ≡ true
      → (cancel_files o peer test (some files) s).0 ≡ true
  unfolding cancel_files on_some
  held_cancelled test files s h = elim (Option-cases files.sending) [
    | inl e ↦ rw e (pending_cancelled test (record files { sending = none }) s (rw e at h))
    | inr (d, e) ↦ elim (Bool-cases (test d.pending_file)) [
      | inl t ↦ rw (e, t) refl
      | inr t ↦
          rw (e, t) (pending_cancelled test (record files { sending = some d }) s (rw (e, t) at h))
    ]
  ]

cancelled-found :
    {W F : Type 0} (peer : PeerId) (result : Bool × Run W F) (m : Files F)
    → result.0 ≡ true
    → (cancelled peer result m).0 ≡ some peer
cancelled-found peer (true, run) m h = refl
cancelled-found peer (false, run) m h = cc

module _ {W F : Type 0} (o : Outside W F) (id : FylesId) (m : Files F) (s : Scene W) where
  cancel_file-none : find_peer id m ≡ none → cancel_file o id m s ≡ (none, m, s)
  unfolding cancel_file on_some
  cancel_file-none e = rw e refl

  cancel_file-found :
      (peer : PeerId) → IsMap m → find_peer id m ≡ some peer → (cancel_file o id m s).0 ≡ some peer
  unfolding cancel_file on_some
  cancel_file-found peer w e =
      let (files, found, holds) = find_peer_holds id m peer w e in
      rw e (
        cancelled-found peer (cancel_files o peer (λ p. p.id == id) (lookup peer m) s) m
          (rw found (held_cancelled o peer (λ p. p.id == id) files s holds)))

  -- In a map without double peers, cancel_file reports no peer and changes nothing exactly if no
  -- peer holds the file, in its queue or in its slot.
  pub cancel_file_lem :
      IsMap m
      → (cancel_file o id m s ≡ (none, m, s)) ↔ (
          (peer : PeerId) (files : PeerFiles F)
          → lookup peer m ≡ some files
          → holds_file id files ≡ false)
  cancel_file_lem w = elim (Option-cases (find_peer id m)) [
    | inl e ↦ (λ h peer files l. find_peer-none id m peer files e l, λ h. cancel_file-none e)
    | inr (found, e) ↦
        let (files, l, holds) = find_peer_holds id m found w e in
        (
          λ h peer files' l'. absurd (cc (h, cancel_file-found found w e)),
          λ h. absurd (cc (h found files l, holds)),
        )
  ]
