-- ===== src/P2p/RequestRegistry/Calls.antt =====
-- The calls of `TimeoutRequestRegistry` that change it, as one step.
use native.Mathlib.Nat.{mod-eq_of_lt}
use fyles_release.Base.{
  ℕ, ◌+◌, ◌≤◌, ◌<◌, ◌≡◌, refl, Bool, Option, none, some, List, [], ◌∷◌, arith, Eq, nat_eq,
  Option-cases, inl, inr,
}
use fyles_release.Base.HashMap.{lookup, lookup-insert}
use fyles_release.P2p.Types.{u64_mod}
use fyles_release.P2p.RequestRegistry.{
  Registry, RegisteredRequest, Called, Command, register, unregister, reset_timeout,
  register_request_id, register_request, remove_request, get_request_for_resend,
  get_request_for_resend_after_session_error, update_request_id, retry, registered, for_resend,
  for_resend_after_session_error, only_id, with_data, retried, get_external_request_id,
}
use fyles_release.P2p.RequestRegistry.External.{
  IsIssued, registered-IsIssued, removed-IsIssued, rewritten-IsIssued, moved-IsIssued,
}

-- The calls that change the registry.
pub data Call (N K C R S : Type 0) : Type 0 where
  register_id : K → N → Call N K C R S
  register_with : S → K → N → Option C → R → Bool → Call N K C R S
  remove_id resend : K → Call N K C R S
  resend_after_session_error : Option S → K → Call N K C R S
  update_id : K → K → Call N K C R S

-- The registry and the commands after a call, without its result.
abbrev pub effect :
    {N K C R S A : Type 0} → Called N K C R S A → Registry K C R S × List (Command N)
effect c = (c.registry, c.commands)

-- The commands register ids in order, from `low` on and below `next`.
abbrev pub InOrder : {N : Type 0} → ℕ → List (Command N) → ℕ → Type 0
InOrder low [] next = low ≤ next
InOrder low (register id node ∷ cs) next = (low ≤ id) × InOrder (id + 1) cs next
InOrder low (unregister id ∷ cs) next = InOrder low cs next
InOrder low (reset_timeout id ∷ cs) next = InOrder low cs next

module _ {N K C R S : Type 0} ⦃e : Eq K⦄ where
  abbrev pub Kept : Registry K C R S → Registry K C R S × List (Command N) → Type 0
  Kept m r =
      IsIssued r.0
      × InOrder m.next_external_request_id r.1 r.0.next_external_request_id
      × (r.0.next_external_request_id ≤ m.next_external_request_id + 1)

  added-Kept :
      (m : Registry K C R S) (id : K) (node : N) (r : RegisteredRequest C R S)
      → IsIssued m
      → r.external_id ≡ m.next_external_request_id
      → m.next_external_request_id + 1 < u64_mod
      → Kept m (effect (registered m id node r))
  added-Kept m id node r i q l = (
    registered-IsIssued m i id node r q l,
    (omega arith, omega (arith, mod-eq_of_lt l)),
    omega (arith, mod-eq_of_lt l),
  )

module _ {K C R S : Type 0} ⦃e : Eq K⦄ where
  retry-Kept :
      (N : Type 0) (m : Registry K C R S) (i : IsIssued m) {A : Type 0} (id : K)
      (r : RegisteredRequest C R S) (again : Option A)
      → lookup id m.register ≡ some r
      → Kept m (effect (retry {N = N} m id r again))
  retry-Kept N m i id r none f = (i, omega arith, omega arith)
  retry-Kept N m i id r (some again) f =
      (rewritten-IsIssued m i id r (retried r) f refl, omega arith, omega arith)

  retry-next :
      (N : Type 0) (m : Registry K C R S) {A : Type 0} (id : K) (r : RegisteredRequest C R S)
      (again : Option A)
      → (retry {N = N} m id r again).registry.next_external_request_id ≡ m.next_external_request_id
  retry-next N m id r none = refl
  retry-next N m id r (some again) = refl

  -- An id that was returned is the next one, and stands with its request; otherwise the next one
  -- stays.
  abbrev pub IsNew : Registry K C R S → Registry K C R S → Option (K × ℕ) → Type 0
  IsNew m m' none = m'.next_external_request_id ≡ m.next_external_request_id
  IsNew m m' (some (id, external)) =
      (external ≡ m.next_external_request_id)
      × (m'.next_external_request_id ≡ m.next_external_request_id + 1)
      × (get_external_request_id m' id ≡ some external)

module _ {N K C R S : Type 0} ⦃e : Eq K⦄ ⦃s : Eq S⦄ where
  abbrev pub run_call : Registry K C R S → Call N K C R S → Registry K C R S × List (Command N)
  run_call m (register_id id node) = effect (register_request_id m id node)
  run_call m (register_with session id node contact request idempotent) =
      effect (register_request m session id node contact request idempotent)
  run_call m (remove_id id) = effect (remove_request m id)
  run_call m (resend id) = effect (get_request_for_resend m id)
  run_call m (resend_after_session_error current id) =
      effect (get_request_for_resend_after_session_error m current id)
  run_call m (update_id old new_id) = effect (update_request_id m old new_id)

  -- The request that a call registers, with the external id that it returns to its caller.
  abbrev pub issued_by : Registry K C R S → Call N K C R S → Option (K × ℕ)
  issued_by m (register_id id node) = some (id, (register_request_id m id node).result)
  issued_by m (register_with session id node contact request idempotent) =
      some (id, (register_request m session id node contact request idempotent).result)
  issued_by m (remove_id id) = none
  issued_by m (resend id) = none
  issued_by m (resend_after_session_error current id) = none
  issued_by m (update_id old new_id) = none

  run_call-Kept :
      (m : Registry K C R S) (c : Call N K C R S)
      → IsIssued m
      → m.next_external_request_id + 1 < u64_mod
      → Kept m (run_call m c)
  unfolding register_request_id register_request remove_request get_request_for_resend
      get_request_for_resend_after_session_error update_request_id only_id with_data
  run_call-Kept m (register_id id node) i l =
      added-Kept m id node (only_id m.next_external_request_id) i refl l
  run_call-Kept m (register_with session id node contact request idempotent) i l =
      added-Kept m id node (with_data m.next_external_request_id contact request idempotent session)
        i refl l
  run_call-Kept m (remove_id id) i l = elim (Option-cases (lookup id m.register)) [
    | inl f ↦ ground (arith, f, removed-IsIssued m i id)
    | inr (r, f) ↦ ground (arith, f, removed-IsIssued m i id)
  ]
  run_call-Kept m (resend id) i l = elim (Option-cases (lookup id m.register)) [
    | inl f ↦ ground (arith, f, i)
    | inr (r, f) ↦ ground (arith, f, retry-Kept N m i id r (for_resend r.request_data) f)
  ]
  run_call-Kept m (resend_after_session_error current id) i l =
      elim (Option-cases (lookup id m.register)) [
        | inl f ↦ ground (arith, f, i)
        | inr (r, f) ↦ ground (
          arith,
          f,
          retry-Kept N m i id r (for_resend_after_session_error current r.request_data) f,
        )
      ]
  run_call-Kept m (update_id old new_id) i l = elim (Option-cases (lookup old m.register)) [
    | inl f ↦ ground (arith, f, i)
    | inr (r, f) ↦ ground (arith, f, moved-IsIssued m i old new_id r f)
  ]

  registered-IsNew :
      (m : Registry K C R S) (id : K) (node : N) (r : RegisteredRequest C R S)
      → r.external_id ≡ m.next_external_request_id
      → m.next_external_request_id + 1 < u64_mod
      → let c = registered m id node r in IsNew m c.registry (some (id, c.result))
  unfolding get_external_request_id
  registered-IsNew m id node r q l =
      (refl, mod-eq_of_lt l, ground (arith, lookup-insert id id r m.register, e.beq_iff id id, q))

  run_call-IsNew :
      (m : Registry K C R S) (c : Call N K C R S)
      → m.next_external_request_id + 1 < u64_mod
      → IsNew m (run_call m c).0 (issued_by m c)
  unfolding register_request_id register_request remove_request get_request_for_resend
      get_request_for_resend_after_session_error update_request_id only_id with_data
  run_call-IsNew m (register_id id node) l =
      registered-IsNew m id node (only_id m.next_external_request_id) refl l
  run_call-IsNew m (register_with session id node contact request idempotent) l =
      registered-IsNew m id node
        (with_data m.next_external_request_id contact request idempotent session) refl l
  run_call-IsNew m (remove_id id) l = elim (Option-cases (lookup id m.register)) [
    | inl f ↦ ground (arith, f)
    | inr (r, f) ↦ ground (arith, f)
  ]
  run_call-IsNew m (resend id) l = elim (Option-cases (lookup id m.register)) [
    | inl f ↦ ground (arith, f)
    | inr (r, f) ↦ ground (arith, f, retry-next N m id r (for_resend r.request_data))
  ]
  run_call-IsNew m (resend_after_session_error current id) l =
      elim (Option-cases (lookup id m.register)) [
        | inl f ↦ ground (arith, f)
        | inr (r, f) ↦
            ground (
              arith,
              f,
              retry-next N m id r (for_resend_after_session_error current r.request_data),
            )
      ]
  run_call-IsNew m (update_id old new_id) l = elim (Option-cases (lookup old m.register)) [
    | inl f ↦ ground (arith, f)
    | inr (r, f) ↦ ground (arith, f)
  ]

  -- For a registry in which each external id belongs to one request and is below the next one, and
  -- whose next id does not overflow, every call keeps this. A call that registers a request returns
  -- the next external id, which the request then has in the registry, and makes the following one
  -- the next; every other call leaves the next one. The commands to the worker register no id but
  -- new ones.
  pub run_call_lem :
      (m : Registry K C R S) (c : Call N K C R S)
      → IsIssued m
      → m.next_external_request_id + 1 < u64_mod
      → IsIssued (run_call m c).0
        × InOrder m.next_external_request_id
            (run_call m c).1
            (run_call m c).0.next_external_request_id
        × ((run_call m c).0.next_external_request_id ≤ m.next_external_request_id + 1)
        × IsNew m (run_call m c).0 (issued_by m c)
  run_call_lem m c i l =
      let (issued, order, next) = run_call-Kept m c i l in
      (issued, order, next, run_call-IsNew m c l)
