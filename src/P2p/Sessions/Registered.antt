-- ===== src/P2p/Sessions/Registered.antt =====
-- fyles_service/p2p/src/send_receive_traits/request_registry.rs: a request by its metadata.
use fyles_release.Base.{ℕ, ◌≡◌, refl, inl, inr, Option, none, some, Option-cases, Eq, arith}
use fyles_release.Base.HashMap.{lookup, insert, lookup-insert}
use fyles_release.P2p.RequestRegistry.{Registry, RegisteredRequest, check_request_metadata}

abbrev meta_of : {C R S : Type 0} → Option (RegisteredRequest C R S) → Option (ℕ × ℕ)
meta_of none = none
meta_of (some r) = some (r.retry_count, r.external_id)

module _ {K C R S : Type 0} ⦃k : Eq K⦄ where
  metadata-eq :
      (m : Registry K C R S) (id : K) → check_request_metadata m id ≡ meta_of (lookup id m.register)
  unfolding check_request_metadata
  metadata-eq m id = elim (Option-cases (lookup id m.register)) [
    | inl f ↦ ground (arith, f)
    | inr (r, f) ↦ ground (arith, f)
  ]

  -- A request with metadata is registered.
  pub registered_with :
      (m : Registry K C R S) (id : K) (n external : ℕ)
      → check_request_metadata m id ≡ some (n, external)
      → (r : RegisteredRequest C R S) × (lookup id m.register ≡ some r)
        × (r.retry_count ≡ n)
        × (r.external_id ≡ external)
  registered_with m id n external h = elim (Option-cases (lookup id m.register)) [
    | inl f ↦ absurd (ground (arith, f, h, metadata-eq m id))
    | inr (r, f) ↦
        (r, f, ground (arith, f, h, metadata-eq m id), ground (arith, f, h, metadata-eq m id))
  ]

  pub inserted_metadata :
      (m : Registry K C R S) (id : K) (r : RegisteredRequest C R S)
      → lookup id m.register ≡ some r
      → check_request_metadata m id ≡ some (r.retry_count, r.external_id)
  inserted_metadata m id r f = rw (metadata-eq m id, f) refl

  pub insert-same :
      (m : Registry K C R S) (id : K) (r : RegisteredRequest C R S)
      → lookup id (insert id r m.register) ≡ some r
  insert-same m id r = ground (arith, lookup-insert id id r m.register, k.beq_iff id id)
