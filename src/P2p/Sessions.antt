-- ===== src/P2p/Sessions.antt =====
-- fyles_service/p2p/src/send_receive_traits/session_send_receive.rs: requests in encrypted sessions, and
-- what becomes of their responses and errors. The code is generic in what it calls, and so is this;
-- the registry of the requests is the one of `RequestRegistry`.
pub mod Registered
pub mod Resend
pub mod Settle
pub mod Outcomes
pub mod Store
pub mod Recent
pub mod Responder
pub mod Answers
mod StoreExamples
mod Examples
use fyles_release.Base.{
  ℕ, Bool, true, false, Option, none, some, List, [], ◌∷◌, ◌++◌, if◌then◌else◌, Eq, ltb,
}
use fyles_release.P2p.RequestRegistry.{
  RequestForResend, RequestForResendAfterSessionError, RemovedRequest, Command, Registry, Called,
  register_request_id, register_request, remove_request, get_request_for_resend,
  get_request_for_resend_after_session_error, update_request_id, check_request_metadata,
}
use fyles_release.P2p.FileTracker.Errors.{
  ReceiveError, LocalReceiveError, remote_error, local_error, resend_error, missing_session,
  decrypt_error,
}

-- The traits `GetSession`, `Session` and `RequestSender`: nodes N, ids of the network layer K, contacts
-- C, sessions S, requests R with their ciphertexts X, and responses A with theirs, Y. Each call may
-- change the world outside. `none` is an error.
pub record Network (W N K C S R X A Y : Type 0) : Type 0 where
  pub get_or_establish_session : W → N → Option C → Option S × W
  -- With `use_for_send` false.
  pub get_established_session : W → N → Option S × W
  pub get_recent_receive_sessions : W → N → List S × W
  pub clear_session : W → N → W
  pub encrypt : W → S → R → Option X × W
  pub decrypt : W → S → Y → Option A × W
  pub get_contact_id : S → Option C
  pub send_encrypted_request : W → N → X → K × W

-- The calls of `ResponseReceiver`: the node, the contact of the session, the external id if it is known.
pub data Outcome (N C A : Type 0) : Type 0 where
  receive_response : N → Option C → Option ℕ → A → Outcome N C A
  handle_receive_error : N → Option ℕ → ReceiveError → Outcome N C A

-- The world outside, the registry, what its worker was told, what was handed to the network and what the
-- business logic was told, the last first.
pub record Link (W N K C S R X A : Type 0) : Type 0 where
  pub world : W
  pub registry : Registry K C R S
  pub commands : List (Command N)
  pub sent_requests : List (N × X)
  pub told : List (Outcome N C A)

pub data SendInternalConfig (K : Type 0) : Type 0 where
  register : Bool → SendInternalConfig K
  update : K → SendInternalConfig K
  register_only_id : SendInternalConfig K

pub data SendRes : Type 0 where
  sent : ℕ → SendRes
  get_session_error encrypt_error : SendRes

pub data ReceivePayload (Y : Type 0) : Type 0 where
  response : Y → ReceivePayload Y
  receive_error : ReceiveError → ReceivePayload Y

module _ {W N K C S R X A : Type 0} where
  -- The link after a call of its registry.
  abbrev pub after_call :
      {T : Type 0} → Called N K C R S T → Link W N K C S R X A → Link W N K C S R X A
  after_call c l = record l { registry = c.registry; commands = l.commands ++ c.commands }

  abbrev pub report : Outcome N C A → Link W N K C S R X A → Link W N K C S R X A
  report out l = record l { told = out ∷ l.told }

  abbrev pub in_world : W → Link W N K C S R X A → Link W N K C S R X A
  in_world w l = record l { world = w }

module _ {W N K C S R X A Y : Type 0} ⦃k : Eq K⦄ ⦃e : Eq S⦄ (o : Network W N K C S R X A Y)
    (node : N) where
  -- An id that is not in the registry gets a new external id.
  abbrev pub updated :
      K → Called N K C R S (Option ℕ) → Link W N K C S R X A → SendRes × Link W N K C S R X A
  updated request_id c l = elim c.result [
    | some external ↦ (sent external, after_call c l)
    | none ↦
        let c' = register_request_id c.registry request_id node in
        (sent c'.result, after_call c' (after_call c l))
  ]

  -- The `match` on the configuration, for a request that was sent.
  unfoldable pub enter :
      S
      → K
      → Option C
      → R
      → SendInternalConfig K
      → Link W N K C S R X A
      → SendRes × Link W N K C S R X A
  enter session request_id contact request (register idempotent) l =
      let c = register_request l.registry session request_id node contact request idempotent in
      (sent c.result, after_call c l)
  enter session request_id contact request register_only_id l =
      let c = register_request_id l.registry request_id node in (sent c.result, after_call c l)
  enter session request_id contact request (update old) l =
      updated request_id (update_request_id l.registry old request_id) l

  -- `send_encrypted_request`, which is the only way to the network.
  abbrev pub hand_over : X → Link W N K C S R X A → K × Link W N K C S R X A
  hand_over encrypted l =
      let (request_id, w) = o.send_encrypted_request l.world node encrypted in
      (request_id, record l { world = w; sent_requests = (node, encrypted) ∷ l.sent_requests })

  unfoldable pub send_encrypted :
      S
      → Option X
      → Option C
      → R
      → SendInternalConfig K
      → Link W N K C S R X A
      → SendRes × Link W N K C S R X A
  send_encrypted session none contact request config l = (encrypt_error, l)
  send_encrypted session (some encrypted) contact request config l =
      let (request_id, l') = hand_over encrypted l in
      enter session request_id contact request config l'

  unfoldable pub send_in_session :
      Option S
      → Option C
      → R
      → SendInternalConfig K
      → Link W N K C S R X A
      → SendRes × Link W N K C S R X A
  send_in_session none contact request config l = (get_session_error, l)
  send_in_session (some session) contact request config l =
      let (encrypted, w) = o.encrypt l.world session request in
      send_encrypted session encrypted contact request config (in_world w l)

  unfoldable pub send_internal :
      Option C → R → SendInternalConfig K → Link W N K C S R X A → SendRes × Link W N K C S R X A
  send_internal contact request config l =
      let (session, w) = o.get_or_establish_session l.world node contact in
      send_in_session session contact request config (in_world w l)

  abbrev pub send_request : Option C → R → Link W N K C S R X A → SendRes × Link W N K C S R X A
  send_request contact request l = send_internal contact request (register false) l

  abbrev pub send_request_idempotent :
      Option C → R → Link W N K C S R X A → SendRes × Link W N K C S R X A
  send_request_idempotent contact request l = send_internal contact request (register true) l

  -- The `match` on the result of sending a request again.
  abbrev pub finish_resend : ℕ → SendRes × Link W N K C S R X A → Link W N K C S R X A
  finish_resend external (sent same, l) = l
  finish_resend external (get_session_error, l) =
      report (handle_receive_error node (some external) (local_error resend_error)) l
  finish_resend external (encrypt_error, l) =
      report (handle_receive_error node (some external) (local_error resend_error)) l

  abbrev pub resend : K → ℕ → Option C → R → Link W N K C S R X A → Link W N K C S R X A
  resend id external contact request l =
      finish_resend external (send_internal contact request (update id) l)

  unfoldable pub resend_after_session_error :
      K
      → ℕ
      → ReceiveError
      → Option (RequestForResendAfterSessionError C R)
      → Link W N K C S R X A
      → Link W N K C S R X A
  resend_after_session_error id external err none l =
      report (handle_receive_error node (some external) err) l
  resend_after_session_error id external err (some again) l =
      resend id external again.contact_id again.request
        (if again.requires_new_session then in_world (o.clear_session l.world node) l else l)

  unfoldable pub resend_idempotent :
      K
      → ℕ
      → ReceiveError
      → Option (RequestForResend C R)
      → Link W N K C S R X A
      → Link W N K C S R X A
  resend_idempotent id external err none l =
      report (handle_receive_error node (some external) err) l
  resend_idempotent id external err (some again) l =
      if again.idempotent
      then resend id external again.contact_id again.request l
      else report (handle_receive_error node (some external) err) l

  -- The `match` on the error of a request that was not yet sent again.
  unfoldable pub recover : K → ℕ → ReceiveError → Link W N K C S R X A → Link W N K C S R X A
  recover id external remote_error l =
      let (current, w) = o.get_established_session l.world node in
      let c : Called N K C R S (Option (RequestForResendAfterSessionError C R)) =
        get_request_for_resend_after_session_error l.registry current id in
      resend_after_session_error id external remote_error c.result (after_call c (in_world w l))
  recover id external (local_error err) l =
      let c : Called N K C R S (Option (RequestForResend C R)) =
        get_request_for_resend l.registry id in
      resend_idempotent id external (local_error err) c.result (after_call c l)

  unfoldable pub receive_failed :
      K → ReceiveError → Option (ℕ × ℕ) → Link W N K C S R X A → Link W N K C S R X A
  receive_failed id err none l = report (handle_receive_error node none err) l
  receive_failed id err (some (retry_count, external)) l =
      if ltb 0 retry_count
      then report (handle_receive_error node (some external) err) l
      else recover id external err l

  -- No session could decrypt the response; `failed` tells whether one was tried.
  abbrev pub undecrypted : Bool → ReceiveError
  undecrypted false = local_error missing_session
  undecrypted true = local_error decrypt_error

  -- The loop over the recent sessions.
  unfoldable pub try_sessions :
      Bool → Option ℕ → Y → List S → Link W N K C S R X A → Link W N K C S R X A
  try_sessions failed external text [] l =
      report (handle_receive_error node external (undecrypted failed)) l
  try_sessions failed external text (session ∷ sessions) l =
      let (decrypted, w) = o.decrypt l.world session text in
      let later = try_sessions true external text sessions (in_world w l) in
      elim decrypted [
        | some answer ↦
            report (receive_response node (o.get_contact_id session) external answer) (in_world w l)
        | none ↦ later
      ]

  abbrev pub external_of : Option (RemovedRequest R) → Option ℕ
  external_of none = none
  external_of (some removed) = some removed.external_request_id

  unfoldable pub receive_encrypted_response :
      K → ReceivePayload Y → Link W N K C S R X A → Link W N K C S R X A
  receive_encrypted_response id (receive_error err) l =
      receive_failed id err (check_request_metadata l.registry id) l
  receive_encrypted_response id (response text) l =
      let c : Called N K C R S (Option (RemovedRequest R)) = remove_request l.registry id in
      let (sessions, w) = o.get_recent_receive_sessions l.world node in
      try_sessions false (external_of c.result) text sessions (after_call c (in_world w l))
