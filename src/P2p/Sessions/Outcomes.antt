-- ===== src/P2p/Sessions/Outcomes.antt =====
-- fyles_service/p2p/src/send_receive_traits/session_send_receive.rs: what the business logic
-- is told of a request.
use fyles_release.Base.{
  ℕ, ◌≡◌, ◌⊎◌, refl, inl, inr, Bool, true, false, Option, none, Option-cases, List, [], ◌∷◌, Eq,
  arith,
}
use fyles_release.Base.HashMap.{lookup, lookup-remove}
use fyles_release.P2p.RequestRegistry.{
  RemovedRequest, Registry, Called, check_request_metadata, remove_request, get_external_request_id,
}
use fyles_release.P2p.FileTracker.Errors.{local_error, missing_session, decrypt_error}
use fyles_release.P2p.Sessions.{
  Network, Outcome, receive_response, handle_receive_error, Link, response, after_call, in_world,
  try_sessions, external_of, receive_encrypted_response,
}

-- The contact of one of the sessions.
abbrev pub IsContactOf : {C S : Type 0} → (S → Option C) → Option C → List S → Type 0
IsContactOf contact_of contact [] = ⊥
IsContactOf contact_of contact (session ∷ sessions) =
    (contact ≡ contact_of session) ⊎ IsContactOf contact_of contact sessions

-- The one outcome of a response: the answer that a session gave, or that there was none.
abbrev pub IsAnswered :
    {N C S A : Type 0} → N → Option ℕ → (S → Option C) → List S → Outcome N C A → Type 0
IsAnswered node external contact_of sessions (receive_response n contact x answer) =
    (n ≡ node) × (x ≡ external) × IsContactOf contact_of contact sessions
IsAnswered node external contact_of sessions (handle_receive_error n x err) =
    (n ≡ node)
    × (x ≡ external)
    × ((err ≡ local_error missing_session) ⊎ (err ≡ local_error decrypt_error))

-- One more session to choose from.
IsAnswered-cons :
    {N C S A : Type 0} (node : N) (external : Option ℕ) (contact_of : S → Option C) (session : S)
    (sessions : List S) (out : Outcome N C A)
    → IsAnswered node external contact_of sessions out
    → IsAnswered node external contact_of (session ∷ sessions) out
IsAnswered-cons node external contact_of session sessions (receive_response n contact x answer) h =
    (h.0, h.1, inr h.2)
IsAnswered-cons node external contact_of session sessions (handle_receive_error n x err) h = h

IsAnswered-same :
    {N C S A : Type 0} (node : N) {x y : Option ℕ} (contact_of : S → Option C) (sessions : List S)
    (out : Outcome N C A)
    → x ≡ y
    → IsAnswered node x contact_of sessions out
    → IsAnswered node y contact_of sessions out
IsAnswered-same node contact_of sessions out q h = rw q at h

module _ {W N K C S R X A Y : Type 0} ⦃k : Eq K⦄ ⦃e : Eq S⦄ (o : Network W N K C S R X A Y)
    (node : N) where
  try_sessions-once :
      (failed : Bool) (external : Option ℕ) (text : Y) (sessions : List S)
      (l : Link W N K C S R X A)
      → let l' = try_sessions o node failed external text sessions l in
        (out : Outcome N C A) × (l'.told ≡ out ∷ l.told)
        × IsAnswered node external o.get_contact_id sessions out
        × (l'.registry ≡ l.registry)
  unfolding try_sessions
  try_sessions-once false external text [] l = (
    handle_receive_error node external (local_error missing_session),
    refl,
    (refl, refl, inl refl),
    refl,
  )
  try_sessions-once true external text [] l = (
    handle_receive_error node external (local_error decrypt_error),
    refl,
    (refl, refl, inr refl),
    refl,
  )
  try_sessions-once failed external text (session ∷ sessions) l =
      let (decrypted, w) = o.decrypt l.world session text in
      elim (Option-cases decrypted) [
        | inl f ↦
            let (out, t, answered, same) =
              try_sessions-once true external text sessions (in_world w l) in
            rw (try_sessions, f)
              (
                out,
                t,
                IsAnswered-cons node external o.get_contact_id session sessions out answered,
                same,
              )
        | inr (answer, f) ↦
            rw (try_sessions, f)
              (
                receive_response node (o.get_contact_id session) external answer,
                refl,
                (refl, refl, inl refl),
                refl,
              )
      ]

  external_of-removed :
      (m : Registry K C R S) (id : K)
      → external_of o node (remove_request {N = N} m id).result ≡ get_external_request_id m id
  unfolding remove_request get_external_request_id
  external_of-removed m id = elim (Option-cases (lookup id m.register)) [
    | inl f ↦ ground (arith, f)
    | inr (r, f) ↦ ground (arith, f)
  ]

  removed-metadata :
      (m : Registry K C R S) (id : K)
      → check_request_metadata (remove_request {N = N} m id).registry id ≡ none
  unfolding remove_request check_request_metadata
  removed-metadata m id = elim (Option-cases (lookup id m.register)) [
    | inl f ↦ ground (arith, f, lookup-remove id id m.register, k.beq_iff id id)
    | inr (r, f) ↦ ground (arith, f, lookup-remove id id m.register, k.beq_iff id id)
  ]

  -- An encrypted response is told to the business logic exactly once, under the external id that
  -- the registry has for its request, if any: as the answer, with the contact of one of the recent
  -- sessions of the node, or as an error of a missing session or of the decryption. The request is
  -- not registered any more.
  pub receive_response_answers :
      (id : K) (text : Y) (l : Link W N K C S R X A)
      → let l' = receive_encrypted_response o node id (response text) l in
        (out : Outcome N C A) × (l'.told ≡ out ∷ l.told)
        × IsAnswered node
            (get_external_request_id l.registry id)
            o.get_contact_id
            (o.get_recent_receive_sessions l.world node).0
            out
        × (check_request_metadata l'.registry id ≡ none)
  unfolding receive_encrypted_response
  receive_response_answers id text l =
      let c : Called N K C R S (Option (RemovedRequest R)) = remove_request l.registry id in
      let (sessions, w) = o.get_recent_receive_sessions l.world node in
      let (out, told, answered, same) =
        try_sessions-once false (external_of o node c.result) text sessions
          (after_call c (in_world w l)) in
      (
        out,
        told,
        IsAnswered-same node o.get_contact_id sessions out (external_of-removed l.registry id)
            answered,
        rw same (removed-metadata l.registry id),
      )
