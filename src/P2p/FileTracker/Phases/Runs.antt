-- ===== src/P2p/FileTracker/Phases/Runs.antt =====
-- fyles_service/p2p/src/event_loop/filerequest/file_tracker.rs: the calls for a peer, one after the
-- other, refine the machine of the sending slot.
use fyles_release.Base.{◌≡◌, Option, List, [], ◌∷◌}
use fyles_release.P2p.Types.{FylesId, PeerId}
use fyles_release.P2p.FileTracker.{
  Outside, Scene, PeerFiles, Run, Handled, returned, deadlocked, panicked, out_of_fuel,
}
use fyles_release.P2p.FileTracker.Calls.{Call, perform, and_then, perform_all}
use fyles_release.P2p.FileTracker.Phases.{
  Phase, Steps, entry_phase, delivered, IsTracked, Refines, RefinesHandled,
}
use fyles_release.P2p.FileTracker.Phases.Others.{call_kind, perform-Refines}

-- The machine takes the steps that each call in turn allows.
pub data Follows : List Call → Phase → List FylesId → Phase → List FylesId → Type 0 where
  done : (p : Phase) (l : List FylesId) → Follows [] p l p l
  call :
      {c : Call} {cs : List Call} {p q r : Phase} {l m n : List FylesId}
      → Steps (call_kind c) p l q m
      → Follows cs q m r n
      → Follows (c ∷ cs) p l r n

abbrev RunsAs :
    {W F : Type 0} → List Call → Option (PeerFiles F) → Scene W → Handled (Run W F) → Type 0
RunsAs cs entry s (returned run) =
    Follows cs (entry_phase entry) (delivered s.log) (entry_phase run.files)
      (delivered run.scene.log)
    × (IsTracked entry → IsTracked run.files)
RunsAs cs entry s deadlocked = Unit
RunsAs cs entry s panicked = Unit
RunsAs cs entry s out_of_fuel = Unit

returned-RunsAs :
    {W F : Type 0} (cs : List Call) (entry : Option (PeerFiles F)) (s : Scene W)
    (handled : Handled (Run W F)) (run : Run W F)
    → handled ≡ returned run
    → RunsAs cs entry s handled
    → RunsAs cs entry s (returned run)
returned-RunsAs cs entry s (returned found) run e h = let same : found ≡ run = cc in rw (← same) h
returned-RunsAs cs entry s deadlocked run e h = cc
returned-RunsAs cs entry s panicked run e h = cc
returned-RunsAs cs entry s out_of_fuel run e h = cc

-- The first call and the rest of them.
after_call :
    {W F : Type 0} (c : Call) (cs : List Call) (entry : Option (PeerFiles F)) (s : Scene W)
    (run : Run W F) (handled : Handled (Run W F))
    → Refines (call_kind c) entry s run
    → RunsAs cs run.files run.scene handled
    → RunsAs (c ∷ cs) entry s handled
after_call c cs entry s run (returned last) h r = (call h.0 r.0, λ k. r.1 (h.1 k))
after_call c cs entry s run deadlocked h r = tt
after_call c cs entry s run panicked h r = tt
after_call c cs entry s run out_of_fuel h r = tt

module _ {W F : Type 0} (o : Outside W F) (peer : PeerId) where
  and_then-RunsAs :
      (c : Call) (cs : List Call) (entry : Option (PeerFiles F)) (s : Scene W)
      → ((entry' : Option (PeerFiles F)) (s' : Scene W)
          → RunsAs cs entry' s' (perform_all o peer cs entry' s'))
      → (handled : Handled (Run W F)) → RefinesHandled (call_kind c) entry s handled
      → RunsAs (c ∷ cs) entry s (and_then o peer (perform_all o peer cs) handled)
  unfolding and_then
  and_then-RunsAs c cs entry s ih (returned run) h =
      after_call c cs entry s run (perform_all o peer cs run.files run.scene) h
        (ih run.files run.scene)
  and_then-RunsAs c cs entry s ih deadlocked h = tt
  and_then-RunsAs c cs entry s ih panicked h = tt
  and_then-RunsAs c cs entry s ih out_of_fuel h = tt

  perform_all-RunsAs :
      (cs : List Call) (entry : Option (PeerFiles F)) (s : Scene W)
      → RunsAs cs entry s (perform_all o peer cs entry s)
  unfolding perform_all
  perform_all-RunsAs [] entry s = (done (entry_phase entry) (delivered s.log), λ k. k)
  perform_all-RunsAs (c ∷ cs) entry s =
      and_then-RunsAs c cs entry s (perform_all-RunsAs cs) (perform o peer c entry s)
        (perform-Refines o peer c entry s)

module _ {W F : Type 0} (o : Outside W F) (peer : PeerId) (cs : List Call)
    (entry : Option (PeerFiles F)) (s : Scene W) (run : Run W F)
    (performed : perform_all o peer cs entry s ≡ returned run) where
  -- Any sequence of responses, errors, additions, cancellations and losses of the connection of one
  -- peer that returned takes, call by call, steps of a machine with one slot: a file is offered; it
  -- is sent on only in a call in which the peer accepts; it is finished only in a call in which the
  -- peer accepts or acknowledges a chunk; it is delivered, which is when the brain hears that it
  -- was sent, only from there and in a call with ConfirmDone; or it leaves the slot.
  pub perform_all-Follows :
      Follows cs
        (entry_phase entry)
        (delivered s.log)
        (entry_phase run.files)
        (delivered run.scene.log)
  perform_all-Follows =
      (returned-RunsAs cs entry s (perform_all o peer cs entry s) run performed
        (perform_all-RunsAs o peer cs entry s)).0

  -- A sequence of calls for one peer that returned keeps this: every file of the queue is Pending
  -- or Interrupted, and a file in the slot is Prepared, Sending or PendingSent.
  pub perform_all-IsTracked : IsTracked entry → IsTracked run.files
  perform_all-IsTracked tracked =
      (returned-RunsAs cs entry s (perform_all o peer cs entry s) run performed
          (perform_all-RunsAs o peer cs entry s)).1
        tracked
