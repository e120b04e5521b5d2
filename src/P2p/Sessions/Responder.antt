-- ===== src/P2p/Sessions/Responder.antt =====
-- fyles_service/p2p/src/send_receive_traits/session_responder.rs: the answering side of a session. The
-- code is generic in what it calls, and so is this.
use fyles_release.Base.{ℕ, Bool, true, false, Option, none, some, List, [], ◌∷◌}

-- The traits `GetSession`, `Session` and `RequestReceiver`: nodes N, contacts C, sessions S, requests R
-- with their ciphertexts X, answers A with theirs, Y. Each call may change the world outside.
pub record Host (W N C S R X A Y : Type 0) : Type 0 where
  pub get_recent_receive_sessions : W → N → List S × W
  pub decrypt : W → S → X → Option R × W
  pub encrypt : W → S → A → Option Y × W
  pub get_contact_id : S → Option C
  -- With the id of the inbound request; `none` is no answer.
  pub respond_to : W → N → Option C → R → ℕ → Option A × W

-- The world outside, and the calls of `respond_to`, the last first.
pub record Served (W C R : Type 0) : Type 0 where
  pub world : W
  pub asked : List (Option C × R)

pub data SessionResponderError : Type 0 where
  missing_session could_not_decrypt encrypt_error : SessionResponderError

pub data SessionErrorResponse : Type 0 where
  missing_session crypt_error : SessionErrorResponse

-- What the other side is told of an error.
abbrev pub error_response : SessionResponderError → SessionErrorResponse
error_response SessionResponderError.missing_session = SessionErrorResponse.missing_session
error_response could_not_decrypt = crypt_error
error_response encrypt_error = crypt_error

-- The result of `decrypt_respond`.
pub data Answer (Y : Type 0) : Type 0 where
  silent : Answer Y
  answered : Y → Answer Y
  refused : SessionResponderError → Answer Y

module _ {W N C S R X A Y : Type 0} (o : Host W N C S R X A Y) (node : N) (request_id : ℕ) where
  abbrev pub encrypted_answer : Option Y → Answer Y
  encrypted_answer none = refused encrypt_error
  encrypted_answer (some text) = answered text

  -- The answer of the business logic, in the session of the request.
  unfoldable pub answer_in : S → Option A → Served W C R → Answer Y × Served W C R
  answer_in session none s = (silent, s)
  answer_in session (some response) s =
      let (encrypted, w) = o.encrypt s.world session response in
      (encrypted_answer encrypted, record s { world = w })

  -- The request was decrypted in this session.
  unfoldable pub respond_in : S → R → Served W C R → Answer Y × Served W C R
  respond_in session request s =
      let contact = o.get_contact_id session in
      let (response, w) = o.respond_to s.world node contact request request_id in
      answer_in session response (record { world = w; asked = (contact, request) ∷ s.asked })

  abbrev pub undecrypted : Bool → SessionResponderError
  undecrypted false = SessionResponderError.missing_session
  undecrypted true = could_not_decrypt

  -- The loop over the recent sessions; `failed` tells whether one was tried.
  unfoldable pub try_sessions : Bool → X → List S → Served W C R → Answer Y × Served W C R
  try_sessions failed text [] s = (refused (undecrypted failed), s)
  try_sessions failed text (session ∷ sessions) s =
      let (decrypted, w) = o.decrypt s.world session text in
      let later = try_sessions true text sessions (record s { world = w }) in
      elim decrypted [
        | some request ↦ respond_in session request (record s { world = w })
        | none ↦ later
      ]

  unfoldable pub decrypt_respond : X → Served W C R → Answer Y × Served W C R
  decrypt_respond text s =
      let (sessions, w) = o.get_recent_receive_sessions s.world node in
      try_sessions false text sessions (record s { world = w })
