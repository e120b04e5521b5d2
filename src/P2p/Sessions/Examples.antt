-- ===== src/P2p/Sessions/Examples.antt =====
-- Sessions with a node that runs on numbers, and the theorems at concrete inputs.
use fyles_release.Base.{ℕ, ◌+◌, ◌≡◌, true, none, some, [], ◌∷◌, if◌then◌else◌, ◌==◌, nat_eq}
use fyles_release.P2p.RequestRegistry.{
  new, register_request, check_request_metadata, get_external_request_id,
}
use fyles_release.P2p.Sessions.{Network, Outcome, Link, response, receive_encrypted_response}
use fyles_release.P2p.Sessions.Responder.{Host, decrypt_respond}
use fyles_release.P2p.Sessions.Answers.{IsServed, decrypt_respond-IsServed}
use fyles_release.P2p.Sessions.Outcomes.{IsAnswered, receive_response_answers}

-- The world counts the messages that were sent; a ciphertext names its session; the recent sessions are
-- 8 and 7, the first of them the current one.
abbrev network : Network ℕ ℕ ℕ ℕ ℕ ℕ (ℕ × ℕ) ℕ (ℕ × ℕ)
network = record {
  get_or_establish_session = λ w n contact. (some 8, w);
  get_established_session = λ w n. (some 8, w);
  get_recent_receive_sessions = λ w n. (8 ∷ 7 ∷ [], w);
  clear_session = λ w n. w;
  encrypt = λ w s r. (some (s, r), w);
  decrypt = λ w s y. (if y.0 == s then some y.1 else none, w);
  get_contact_id = λ s. some (s + 100);
  send_encrypted_request = λ w n x. (w, w + 1);
}

-- A request to node 1 that was sent in session 7, under the id 5.
abbrev waiting : Link ℕ ℕ ℕ ℕ ℕ ℕ (ℕ × ℕ) ℕ
waiting = record {
  world = 6;
  registry = (register_request {N = ℕ} new 7 5 1 (some 3) 42 true).registry;
  commands = [];
  sent_requests = [];
  told = [];
}

receive_response_answers_example :
    let l' = receive_encrypted_response network 1 5 (response (7, 99)) waiting in
    (out : Outcome ℕ ℕ ℕ) × (l'.told ≡ out ∷ [])
    × IsAnswered 1
        (get_external_request_id waiting.registry 5)
        (λ s. some (s + 100))
        (8 ∷ 7 ∷ [])
        out
    × (check_request_metadata l'.registry 5 ≡ none)
receive_response_answers_example = receive_response_answers network 1 5 (7, 99) waiting

-- A host that answers a request with its double, in the sessions 8 and 7.
abbrev host : Host ℕ ℕ ℕ ℕ ℕ (ℕ × ℕ) ℕ (ℕ × ℕ)
host = record {
  get_recent_receive_sessions = λ w n. (8 ∷ 7 ∷ [], w);
  decrypt = λ w s y. (if y.0 == s then some y.1 else none, w);
  encrypt = λ w s a. (some (s, a), w);
  get_contact_id = λ s. some (s + 100);
  respond_to = λ w n contact r id. (some (r + r), w + 1);
}

decrypt_respond-IsServed_example :
    IsServed
      (λ s. some (s + 100))
      (8 ∷ 7 ∷ [])
      []
      (decrypt_respond host 1 2 (7, 21) (record { world = 0; asked = [] }))
decrypt_respond-IsServed_example =
    decrypt_respond-IsServed host 1 2 (7, 21) (record { world = 0; asked = [] })
