-- ===== src/P2p/RequestRegistry/Issuing.antt =====
-- request_registry.rs: the external ids that any sequence of calls returns.
use fyles_release.Base.{ℕ, ◌≤◌, Option, none, some, List, [], ◌∷◌, Eq}
use fyles_release.P2p.RequestRegistry.{Registry}
use fyles_release.P2p.RequestRegistry.Calls.{Call, run_call, issued_by}
use fyles_release.P2p.RequestRegistry.System.{IsOnce}

abbrev pub AtLeast : ℕ → List ℕ → Type 0
AtLeast low [] = Unit {0}
AtLeast low (x ∷ xs) = (low ≤ x) × AtLeast low xs

abbrev with_issued : {K : Type 0} → Option (K × ℕ) → List ℕ → List ℕ
with_issued none xs = xs
with_issued (some (id, external)) xs = external ∷ xs

abbrev Fresh : {K C R S : Type 0} → Registry K C R S → List ℕ → Type 0
Fresh m xs = IsOnce xs × AtLeast m.next_external_request_id xs

module _ {N K C R S : Type 0} ⦃e : Eq K⦄ ⦃s : Eq S⦄ where
  -- The external ids that the calls return, the first one first.
  unfoldable pub issued_ids : Registry K C R S → List (Call N K C R S) → List ℕ
  issued_ids m [] = []
  issued_ids m (c ∷ cs) =
      let rest = issued_ids (run_call m c).0 cs in with_issued (issued_by m c) rest
