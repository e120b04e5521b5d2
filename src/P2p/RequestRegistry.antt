-- ===== src/P2p/RequestRegistry.antt =====
-- fyles_service/p2p/src/send_receive_traits/request_registry.rs: `TimeoutRequestRegistry`, the requests
-- in flight by the id of the network layer. The lock is held for a whole call, so each call is a
-- function of the data; the commands to the worker are returned in order. A `usize` has 64 bits.
pub mod External
pub mod Worker
pub mod Expiry
pub mod Reporting
pub mod Polling
pub mod Calls
pub mod System
pub mod Timeouts
pub mod Runs
pub mod Issuing
pub mod Lookups
mod Examples
use fyles_release.Base.{
  ℕ, ◌+◌, ◌%◌, Bool, true, false, Option, none, some, List, [], ◌∷◌, if◌then◌else◌, Eq,
}
use fyles_release.Base.HashMap.{HashMap, lookup, insert, remove}
use fyles_release.P2p.Types.{u64_mod}

pub record RegisteredRequestData (C R S : Type 0) : Type 0 where
  pub contact_id : Option C
  pub request : R
  pub idempotent : Bool
  pub session : S

pub record RegisteredRequest (C R S : Type 0) : Type 0 where
  pub external_id : ℕ
  pub retry_count : ℕ
  pub request_data : Option (RegisteredRequestData C R S)

pub record RequestForResend (C R : Type 0) : Type 0 where
  pub request : R
  pub contact_id : Option C
  pub idempotent : Bool

pub record RequestForResendAfterSessionError (C R : Type 0) : Type 0 where
  pub request : R
  pub contact_id : Option C
  pub requires_new_session : Bool

pub record RemovedRequest (R : Type 0) : Type 0 where
  pub external_request_id : ℕ
  pub request : Option R

-- What the handle sends to the worker. A closed channel only leaves a line in the log.
pub data Command (N : Type 0) : Type 0 where
  register : ℕ → N → Command N
  unregister reset_timeout : ℕ → Command N

pub record Registry (K C R S : Type 0) : Type 0 where
  pub register : HashMap K (RegisteredRequest C R S)
  pub next_external_request_id : ℕ

-- The result of a call, the registry after it, and the commands.
pub record Called (N K C R S A : Type 0) : Type 0 where
  pub result : A
  pub registry : Registry K C R S
  pub commands : List (Command N)

unfoldable pub same_session : {S : Type 0} → ⦃e : Eq S⦄ → Option S → S → Bool
same_session none session = false
same_session ⦃e⦄ (some current) session = e.beq current session

module _ {C R S : Type 0} where
  unfoldable pub only_id : ℕ → RegisteredRequest C R S
  only_id external_id = record { external_id = external_id; retry_count = 0; request_data = none }

  unfoldable pub with_data : ℕ → Option C → R → Bool → S → RegisteredRequest C R S
  with_data external_id contact_id request idempotent session = record {
    external_id = external_id;
    retry_count = 0;
    request_data = some (record {
      contact_id = contact_id;
      request = request;
      idempotent = idempotent;
      session = session;
    });
  }

  abbrev pub retried : RegisteredRequest C R S → RegisteredRequest C R S
  retried r = record r { retry_count = (r.retry_count + 1) % u64_mod }

  -- What a registered request gives to send it again.
  unfoldable pub for_resend : Option (RegisteredRequestData C R S) → Option (RequestForResend C R)
  for_resend none = none
  for_resend (some it) =
      if it.idempotent
      then some
          (record { request = it.request; contact_id = it.contact_id; idempotent = it.idempotent })
      else none

  unfoldable pub for_resend_after_session_error :
      ⦃e : Eq S⦄
      → Option S
      → Option (RegisteredRequestData C R S)
      → Option (RequestForResendAfterSessionError C R)
  for_resend_after_session_error current none = none
  for_resend_after_session_error current (some it) = some (record {
    request = it.request;
    contact_id = it.contact_id;
    requires_new_session = same_session current it.session;
  })

  abbrev pub request_of : Option (RegisteredRequestData C R S) → Option R
  request_of none = none
  request_of (some it) = some it.request

module _ {N K C R S : Type 0} ⦃e : Eq K⦄ where
  abbrev pub called : {A : Type 0} → A → Registry K C R S → List (Command N) → Called N K C R S A
  called result registry commands = record {
    result = result;
    registry = registry;
    commands = commands;
  }

  -- The part that `register_request_id` and `register_request` share.
  abbrev pub registered : Registry K C R S → K → N → RegisteredRequest C R S → Called N K C R S ℕ
  registered m request_id node_id request =
      let id = m.next_external_request_id in
      called id
        (record m {
          register = insert request_id request m.register;
          next_external_request_id = (id + 1) % u64_mod;
        })
        (register id node_id ∷ [])

  unfoldable pub register_request_id : Registry K C R S → K → N → Called N K C R S ℕ
  register_request_id m request_id node_id =
      registered m request_id node_id (only_id m.next_external_request_id)

  unfoldable pub register_request :
      Registry K C R S → S → K → N → Option C → R → Bool → Called N K C R S ℕ
  register_request m session request_id node_id contact_id request idempotent =
      registered m request_id node_id
        (with_data m.next_external_request_id contact_id request idempotent session)

  unfoldable pub remove_request :
      Registry K C R S → K → Called N K C R S (Option (RemovedRequest R))
  remove_request m id =
      let m' = record m { register = remove id m.register } in
      elim (lookup id m.register) [
        | none ↦ called none m' []
        | some r ↦
            called
              (some (record {
                external_request_id = r.external_id;
                request = request_of r.request_data;
              }))
              m' (unregister r.external_id ∷ [])
      ]

  -- The retry of a request that is sent again; `result` is what the caller gets.
  abbrev pub retry :
      {A : Type 0}
      → Registry K C R S
      → K
      → RegisteredRequest C R S
      → Option A
      → Called N K C R S (Option A)
  retry m id r none = called none m []
  retry m id r (some again) =
      called (some again) (record m { register = insert id (retried r) m.register })
        (reset_timeout r.external_id ∷ [])

  unfoldable pub get_request_for_resend :
      Registry K C R S → K → Called N K C R S (Option (RequestForResend C R))
  get_request_for_resend m id = elim (lookup id m.register) [
    | none ↦ called none m []
    | some r ↦ retry m id r (for_resend r.request_data)
  ]

  unfoldable pub get_request_for_resend_after_session_error :
      ⦃s : Eq S⦄
      → Registry K C R S
      → Option S
      → K
      → Called N K C R S (Option (RequestForResendAfterSessionError C R))
  get_request_for_resend_after_session_error m current id = elim (lookup id m.register) [
    | none ↦ called none m []
    | some r ↦ retry m id r (for_resend_after_session_error current r.request_data)
  ]

  -- `none` is the error.
  unfoldable pub update_request_id : Registry K C R S → K → K → Called N K C R S (Option ℕ)
  update_request_id m old new_id = elim (lookup old m.register) [
    | none ↦ called none m []
    | some r ↦
        called (some r.external_id)
          (record m { register = insert new_id r (remove old m.register) }) []
  ]

module _ {K C R S : Type 0} where
  unfoldable pub new : Registry K C R S
  new = record { register = []; next_external_request_id = 0 }

module _ {K C R S : Type 0} ⦃e : Eq K⦄ where
  -- The retry count and the external id.
  unfoldable pub check_request_metadata : Registry K C R S → K → Option (ℕ × ℕ)
  check_request_metadata m id = elim (lookup id m.register) [
    | none ↦ none
    | some r ↦ some (r.retry_count, r.external_id)
  ]

  unfoldable pub get_external_request_id : Registry K C R S → K → Option ℕ
  get_external_request_id m id = elim (lookup id m.register) [
    | none ↦ none
    | some r ↦ some r.external_id
  ]
