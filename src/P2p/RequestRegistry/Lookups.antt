-- ===== src/P2p/RequestRegistry/Lookups.antt =====
-- What `get_external_request_id` shows after a call of the registry.
use fyles_release.Base.{
  ℕ, ◌≡◌, refl, Option, none, some, if◌then◌else◌, arith, Eq, nat_eq, Option-cases, inl, inr,
}
use fyles_release.Base.HashMap.{lookup, remove, lookup-insert, lookup-remove}
use fyles_release.P2p.RequestRegistry.{
  Registry, RegisteredRequest, retry, retried, for_resend, get_request_for_resend,
  update_request_id, get_external_request_id,
}

abbrev id_in : {C R S : Type 0} → Option (RegisteredRequest C R S) → Option ℕ
id_in none = none
id_in (some r) = some r.external_id

module _ {K C R S : Type 0} ⦃e : Eq K⦄ where
  get_external-eq :
      (m : Registry K C R S) (j : K) → get_external_request_id m j ≡ id_in (lookup j m.register)
  unfolding get_external_request_id
  get_external-eq m j = elim (Option-cases (lookup j m.register)) [
    | inl f ↦ ground (arith, f)
    | inr (r, f) ↦ ground (arith, f)
  ]

  retry-same :
      (N : Type 0) {A : Type 0} (m : Registry K C R S) (id j : K) (r : RegisteredRequest C R S)
      (again : Option A)
      → lookup id m.register ≡ some r
      → id_in (lookup j (retry {N = N} m id r again).registry.register)
        ≡ id_in (lookup j m.register)
  retry-same N m id j r none f = refl
  retry-same N m id j r (some again) f =
      ground (arith, lookup-insert id j (retried r) m.register, f, e.beq_iff id j)

  -- To ask for a request to send it again, whether it may be or not, keeps every external id where
  -- it is.
  pub get_request_for_resend_same :
      (N : Type 0) (m : Registry K C R S) (id j : K)
      → get_external_request_id (get_request_for_resend {N = N} m id).registry j
        ≡ get_external_request_id m j
  unfolding get_request_for_resend
  get_request_for_resend_same N m id j =
      rw (get_external-eq m j, get_external-eq)
        (elim (Option-cases (lookup id m.register)) [
          | inl f ↦ ground (arith, f)
          | inr (r, f) ↦ ground (arith, f, retry-same N m id j r (for_resend r.request_data) f)
        ])

  -- To give a request that is registered another id of the network layer moves its external id
  -- there, and returns it; every other request keeps its own, but one that had the new id is gone.
  pub update_request_id_lem :
      (N : Type 0) (m : Registry K C R S) (old new_id j : K) (x : ℕ)
      → get_external_request_id m old ≡ some x
      → let a = update_request_id {N = N} m old new_id in
        (a.result ≡ some x)
        × (get_external_request_id a.registry j ≡ (
            if e.beq new_id j
            then some x
            else (if e.beq old j then none else get_external_request_id m j)))
  unfolding update_request_id get_external_request_id
  update_request_id_lem N m old new_id j x h = elim (Option-cases (lookup old m.register)) [
    | inl f ↦ absurd (ground (arith, f, h))
    | inr (r, f) ↦ (
      ground (arith, f, h),
      ground (
        arith,
        f,
        h,
        lookup-insert new_id j r (remove old m.register),
        lookup-remove old j m.register,
      ),
    )
  ]
