-- ===== src/P2p/Sessions/Answers.antt =====
-- fyles_service/p2p/src/send_receive_traits/session_responder.rs: whether the business logic was asked,
-- by the answer that the other side gets.
use fyles_release.Base.{
  ℕ, ◌≡◌, refl, inl, inr, Bool, true, false, Option, none, some, Option-cases, List, [], ◌∷◌,
}
use fyles_release.P2p.Sessions.Outcomes.{IsContactOf}
use fyles_release.P2p.Sessions.Responder.{
  Host, Served, SessionResponderError, could_not_decrypt, encrypt_error, Answer, silent, answered,
  refused, encrypted_answer, answer_in, respond_in, try_sessions, decrypt_respond,
}

-- The business logic was asked once, for the contact of one of the sessions.
abbrev pub IsAsked :
    {W C S R : Type 0} → (S → Option C) → List S → List (Option C × R) → Served W C R → Type 0
IsAsked {C} {R} contact_of sessions before s =
    (contact : Option C) × (request : R) × (s.asked ≡ (contact, request) ∷ before)
    × IsContactOf contact_of contact sessions

-- It was asked, unless no session could decrypt the request.
abbrev pub IsServed :
    {W C S R Y : Type 0}
    → (S → Option C)
    → List S
    → List (Option C × R)
    → Answer Y × Served W C R
    → Type 0
IsServed contact_of sessions before (silent, s) = IsAsked contact_of sessions before s
IsServed contact_of sessions before (answered text, s) = IsAsked contact_of sessions before s
IsServed contact_of sessions before (refused encrypt_error, s) =
    IsAsked contact_of sessions before s
IsServed contact_of sessions before (refused could_not_decrypt, s) = s.asked ≡ before
IsServed contact_of sessions before (refused SessionResponderError.missing_session, s) =
    s.asked ≡ before

-- One more session to choose from.
IsServed-cons :
    {W C S R Y : Type 0} (contact_of : S → Option C) (session : S) (sessions : List S)
    (before : List (Option C × R)) (result : Answer Y × Served W C R)
    → IsServed contact_of sessions before result
    → IsServed contact_of (session ∷ sessions) before result
IsServed-cons contact_of session sessions before (silent, s) h = (h.0, h.1, h.2, inr h.3)
IsServed-cons contact_of session sessions before (answered text, s) h = (h.0, h.1, h.2, inr h.3)
IsServed-cons contact_of session sessions before (refused encrypt_error, s) h =
    (h.0, h.1, h.2, inr h.3)
IsServed-cons contact_of session sessions before (refused could_not_decrypt, s) h = h
IsServed-cons contact_of session sessions before (refused SessionResponderError.missing_session, s)
      h =
    h

module _ {W N C S R X A Y : Type 0} (o : Host W N C S R X A Y) (node : N) (request_id : ℕ) where
  encrypted-IsServed :
      (session : S) (sessions : List S) (before : List (Option C × R)) (encrypted : Option Y)
      (s : Served W C R)
      → IsAsked o.get_contact_id (session ∷ sessions) before s
      → IsServed o.get_contact_id
          (session ∷ sessions)
          before
          (encrypted_answer o node request_id encrypted, s)
  encrypted-IsServed session sessions before none s h = h
  encrypted-IsServed session sessions before (some text) s h = h

  answer_in-IsServed :
      (session : S) (sessions : List S) (before : List (Option C × R)) (response : Option A)
      (s : Served W C R)
      → IsAsked o.get_contact_id (session ∷ sessions) before s
      → IsServed o.get_contact_id
          (session ∷ sessions)
          before
          (answer_in o node request_id session response s)
  unfolding answer_in
  answer_in-IsServed session sessions before none s h = h
  answer_in-IsServed session sessions before (some response) s h =
      let (encrypted, w) = o.encrypt s.world session response in
      encrypted-IsServed session sessions before encrypted (record s { world = w }) h

  respond_in-IsServed :
      (session : S) (sessions : List S) (request : R) (s : Served W C R)
      → IsServed o.get_contact_id
          (session ∷ sessions)
          s.asked
          (respond_in o node request_id session request s)
  unfolding respond_in
  respond_in-IsServed session sessions request s =
      let contact = o.get_contact_id session in
      let (response, w) = o.respond_to s.world node contact request request_id in
      answer_in-IsServed session sessions s.asked response
        (record { world = w; asked = (contact, request) ∷ s.asked })
        (contact, request, refl, inl refl)

  try_sessions-IsServed :
      (failed : Bool) (text : X) (sessions : List S) (s : Served W C R)
      → IsServed o.get_contact_id sessions s.asked
          (try_sessions o node request_id failed text sessions s)
  unfolding try_sessions
  try_sessions-IsServed false text [] s = refl
  try_sessions-IsServed true text [] s = refl
  try_sessions-IsServed failed text (session ∷ sessions) s =
      let (decrypted, w) = o.decrypt s.world session text in
      elim (Option-cases decrypted) [
        | inl f ↦
            rw (try_sessions, f)
              (IsServed-cons o.get_contact_id session sessions s.asked
                (try_sessions o node request_id true text sessions (record s { world = w }))
                (try_sessions-IsServed true text sessions (record s { world = w })))
        | inr (request, f) ↦
            rw (try_sessions, f)
              (respond_in-IsServed session sessions request (record s { world = w }))
      ]

  -- For every encrypted request, by what decrypt_respond gives: if it is an error of a missing
  -- session or of the decryption, the business logic was not asked; in every other case, which
  -- includes no answer and an error of the encryption of the answer, it was asked exactly once, for
  -- the contact of one of the recent sessions.
  pub decrypt_respond-IsServed :
      (text : X) (s : Served W C R)
      → IsServed o.get_contact_id
          (o.get_recent_receive_sessions s.world node).0
          s.asked
          (decrypt_respond o node request_id text s)
  unfolding decrypt_respond
  decrypt_respond-IsServed text s =
      let (sessions, w) = o.get_recent_receive_sessions s.world node in
      try_sessions-IsServed false text sessions (record s { world = w })
