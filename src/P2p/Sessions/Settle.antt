-- ===== src/P2p/Sessions/Settle.antt =====
-- fyles_service/p2p/src/send_receive_traits/session_send_receive.rs: what becomes of a
-- request after an error.
use fyles_release.Base.{ℕ, ◌≡◌, ◌⊎◌, refl, ap, inl, inr, Bool-cases, Option, none, some, ◌∷◌, Eq}
use fyles_release.Base.HashMap.{lookup}
use fyles_release.P2p.RequestRegistry.{
  RequestForResend, RequestForResendAfterSessionError, Registry, RegisteredRequest, retried, retry,
  for_resend, for_resend_after_session_error, get_request_for_resend,
  get_request_for_resend_after_session_error,
}
use fyles_release.P2p.FileTracker.Errors.{ReceiveError, remote_error, local_error, resend_error}
use fyles_release.P2p.Sessions.{
  Network, handle_receive_error, Link, update, SendRes, get_session_error, encrypt_error,
  after_call, in_world, send_internal, finish_resend, resend, resend_after_session_error,
  resend_idempotent, recover,
}
use fyles_release.P2p.Sessions.Registered.{insert-same}
use fyles_release.P2p.Sessions.Resend.{IsTracked, IsSentOnce, IsResent, send_internal-IsResent}

-- The business logic hears of the error, or of one to send the request again, or of nothing and the
-- request went out once more, which counts as a retry.
abbrev pub IsSettled :
    {W N K C S R X A : Type 0}
    → ⦃k : Eq K⦄ → N
    → ℕ
    → ℕ
    → ReceiveError
    → Link W N K C S R X A
    → Link W N K C S R X A
    → Type 0
IsSettled node n external err l l' =
    ((l'.told ≡ handle_receive_error node (some external) err ∷ l.told)
      × (l'.sent_requests ≡ l.sent_requests))
    ⊎ ((n ≡ 0)
        × (((l'.told
                ≡ handle_receive_error node (some external) (local_error resend_error) ∷ l.told)
              × (l'.sent_requests ≡ l.sent_requests))
            ⊎ ((l'.told ≡ l.told) × IsSentOnce node l l' × IsTracked 1 external l')))

module _ {W N K C S R X A Y : Type 0} ⦃k : Eq K⦄ ⦃e : Eq S⦄ (o : Network W N K C S R X A Y)
    (node : N) (id : K) (r : RegisteredRequest C R S) (fresh : r.retry_count ≡ 0) where
  retried-count : (retried r).retry_count ≡ 1
  retried-count = rw fresh refl

  finish_resend-IsSettled :
      (err : ReceiveError) (l : Link W N K C S R X A) (sent : SendRes × Link W N K C S R X A)
      → IsResent node 1 r.external_id l sent
      → IsSettled node r.retry_count r.external_id err l (finish_resend o node r.external_id sent)
  finish_resend-IsSettled err l (SendRes.sent x, l') h = inr (fresh, inr (h.1, h.2, h.3))
  finish_resend-IsSettled err l (get_session_error, l') h = inr (
    fresh,
    inl (
      ap (λ t. handle_receive_error node (some r.external_id) (local_error resend_error) ∷ t) h.0,
      h.1,
    ),
  )
  finish_resend-IsSettled err l (encrypt_error, l') h = inr (
    fresh,
    inl (
      ap (λ t. handle_receive_error node (some r.external_id) (local_error resend_error) ∷ t) h.0,
      h.1,
    ),
  )

  resend-IsSettled :
      (err : ReceiveError) (contact : Option C) (request : R) (l : Link W N K C S R X A)
      → lookup id l.registry.register ≡ some (retried r)
      → IsSettled node r.retry_count r.external_id err l
          (resend o node id r.external_id contact request l)
  resend-IsSettled err contact request l f =
      finish_resend-IsSettled err l (send_internal o node contact request (update id) l) (
        let h = send_internal-IsResent o node id contact request l (retried r) f in
        rw retried-count at h)

  -- A call that retries the request leaves it with one more retry.
  retry-found :
      {T : Type 0} (m : Registry K C R S) (again : T)
      → lookup id (retry {N = N} m id r (some again)).registry.register ≡ some (retried r)
  retry-found m again = insert-same m id (retried r)

  resend_after-IsSettled :
      (err : ReceiveError) (m : Registry K C R S)
      (again : Option (RequestForResendAfterSessionError C R)) (l : Link W N K C S R X A)
      → let c = retry {N = N} m id r again in
        IsSettled node r.retry_count r.external_id err l
          (resend_after_session_error o node id r.external_id err c.result (after_call c l))
  unfolding resend_after_session_error
  resend_after-IsSettled err m none l = inl (refl, refl)
  resend_after-IsSettled err m (some again) l = elim (Bool-cases again.requires_new_session) [
    | inl t ↦ rw t (
        resend-IsSettled err again.contact_id again.request
          (in_world (o.clear_session l.world node) (after_call (retry m id r (some again)) l))
          (retry-found m again))
    | inr t ↦ rw t (
        resend-IsSettled err again.contact_id again.request
          (after_call (retry m id r (some again)) l) (retry-found m again))
  ]

  resend_idempotent-IsSettled :
      (err : ReceiveError) (m : Registry K C R S) (again : Option (RequestForResend C R))
      (l : Link W N K C S R X A)
      → let c = retry {N = N} m id r again in
        IsSettled node r.retry_count r.external_id err l
          (resend_idempotent o node id r.external_id err c.result (after_call c l))
  unfolding resend_idempotent
  resend_idempotent-IsSettled err m none l = inl (refl, refl)
  resend_idempotent-IsSettled err m (some again) l = elim (Bool-cases again.idempotent) [
    | inl t ↦ rw t (
        resend-IsSettled err again.contact_id again.request
          (after_call (retry m id r (some again)) l) (retry-found m again))
    | inr t ↦ rw t (inl (refl, refl))
  ]

  module _ (m : Registry K C R S) (found : lookup id m.register ≡ some r) where
    session_error-retry :
        (current : Option S)
        → get_request_for_resend_after_session_error {N = N} m current id
          ≡ retry m id r (for_resend_after_session_error current r.request_data)
    unfolding get_request_for_resend_after_session_error
    session_error-retry current = rw (get_request_for_resend_after_session_error, found) refl

    local_error-retry :
        get_request_for_resend {N = N} m id ≡ retry m id r (for_resend r.request_data)
    unfolding get_request_for_resend
    local_error-retry = rw (get_request_for_resend, found) refl

  pub recover-IsSettled :
      (err : ReceiveError) (l : Link W N K C S R X A)
      → lookup id l.registry.register ≡ some r
      → IsSettled node r.retry_count r.external_id err l (recover o node id r.external_id err l)
  unfolding recover
  recover-IsSettled remote_error l found =
      let (current, w) = o.get_established_session l.world node in
      rw (session_error-retry l.registry found current) (
        resend_after-IsSettled remote_error l.registry
          (for_resend_after_session_error current r.request_data) (in_world w l))
  recover-IsSettled (local_error err) l found =
      rw (local_error-retry l.registry found)
        (resend_idempotent-IsSettled (local_error err) l.registry (for_resend r.request_data) l)
