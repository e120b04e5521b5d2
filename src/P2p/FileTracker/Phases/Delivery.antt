-- ===== src/P2p/FileTracker/Phases/Delivery.antt =====
-- fyles_service/p2p/src/event_loop/filerequest/file_tracker.rs: when the brain hears that a file was
-- sent.
use fyles_release.Base.{◌≡◌, ◌≢◌, ◌⊎◌, refl, ap, inl, inr, true, Option, List, ◌∷◌, arith}
use fyles_release.P2p.Types.{FylesId, PeerId}
use fyles_release.P2p.FileTracker.{
  Outside, Scene, PeerFiles, Run, Handled, returned, deadlocked, panicked, out_of_fuel,
}
use fyles_release.P2p.FileTracker.Calls.{Call, perform}
use fyles_release.P2p.FileTracker.Phases.{
  Kind, delivering, can_finish, Phase, finishing, Step, offer, accept, finish, deliver, leave,
  Steps, here, next, entry_phase, delivered, Refines, RefinesHandled,
}
use fyles_release.P2p.FileTracker.Phases.Others.{call_kind, perform-Refines}

-- No file is delivered, and none gets to the last phase in a call that delivers.
abbrev Quiet : Kind → Phase → List FylesId → Phase → List FylesId → Type 0
Quiet k p l q m = (m ≡ l) × ((id : FylesId) → k ≡ delivering → q ≡ finishing id → p ≡ finishing id)

-- The file of the last phase is delivered, and no other gets there.
abbrev Delivers : Kind → Phase → List FylesId → Phase → List FylesId → Type 0
Delivers k p l q m =
    (id : FylesId) × (k ≡ delivering)
    × (p ≡ finishing id)
    × (m ≡ id ∷ l)
    × ((j : FylesId) → q ≢ finishing j)

cannot_finish : {k : Kind} → k ≡ delivering → can_finish k ≡ true → ⊥
cannot_finish d c = ground (arith, d, c)

one_step :
    {k : Kind} {p q r : Phase} {l m n : List FylesId}
    → (Quiet k p l q m) ⊎ (Delivers k p l q m)
    → Step k q m r n
    → (Quiet k p l r n) ⊎ (Delivers k p l r n)
one_step (inl h) (offer id m) = inl (h.0, λ j d e. cc)
one_step (inr h) (offer id m) = inr (h.0, h.1, h.2, h.3, λ j e. ground (arith, e))
one_step (inl h) (accept id m a) = inl (h.0, λ j d e. cc)
one_step (inr h) (accept id m a) = inr (h.0, h.1, h.2, h.3, λ j e. ground (arith, e))
one_step (inl h) (finish id m c) = inl (h.0, λ j d e. absurd (cannot_finish d c))
one_step (inr h) (finish id m c) = absurd (cannot_finish h.1 c)
one_step (inl h) (deliver id m d) =
    inr (id, d, h.1 id d refl, ap (λ t. id ∷ t) h.0, λ j e. ground (arith, e))
one_step (inr h) (deliver id m d) = absurd (h.4 id refl)
one_step (inl h) (leave q m) = inl (h.0, λ j d e. cc)
one_step (inr h) (leave q m) = inr (h.0, h.1, h.2, h.3, λ j e. ground (arith, e))

in_one_call :
    {k : Kind} {p : Phase} {l : List FylesId} {q : Phase} {m : List FylesId}
    → Steps k p l q m
    → (Quiet k p l q m) ⊎ (Delivers k p l q m)
in_one_call here = inl (refl, λ j d e. e)
in_one_call (next a s) = one_step (in_one_call a) s

returned-Refines :
    {W F : Type 0} (k : Kind) (entry : Option (PeerFiles F)) (s : Scene W)
    (handled : Handled (Run W F)) (run : Run W F)
    → handled ≡ returned run
    → RefinesHandled k entry s handled
    → Refines k entry s run
returned-Refines k entry s (returned found) run e h = let same : found ≡ run = cc in rw (← same) h
returned-Refines k entry s deadlocked run e h = cc
returned-Refines k entry s panicked run e h = cc
returned-Refines k entry s out_of_fuel run e h = cc

-- A call for one peer that returned tells the brain of no sent file, or of exactly one: then the
-- call is a ConfirmDone, and the file is the one in the slot, in status PendingSent.
pub perform_delivers :
    {W F : Type 0} (o : Outside W F) (peer : PeerId) (c : Call) (entry : Option (PeerFiles F))
    (s : Scene W) (run : Run W F)
    → perform o peer c entry s ≡ returned run
    → (delivered run.scene.log ≡ delivered s.log)
      ⊎ ((id : FylesId) × (call_kind c ≡ delivering)
          × (entry_phase entry ≡ finishing id)
          × (delivered run.scene.log ≡ id ∷ delivered s.log))
perform_delivers o peer c entry s run e =
    elim (in_one_call
      (returned-Refines (call_kind c) entry s (perform o peer c entry s) run e
        (perform-Refines o peer c entry s)).0) [
          | inl h ↦ inl h.0
          | inr h ↦ inr (h.0, h.1, h.2, h.3)
        ]
