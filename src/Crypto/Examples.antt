-- ===== src/Crypto/Examples.antt =====
-- The theorems of the nonce window at concrete inputs, and tests of the code.
use fyles_release.Base.{
  ℕ, ◌+◌, ◌-◌, ◌≤◌, ◌<◌, ◌≡◌, ◌≢◌, ◌⊎◌, refl, Bool, true, false, List, [], ◌∷◌, arith,
}
use fyles_release.Crypto.BitStore.{
  vec_store, vec_store-Lawful, vec_get_invalidate_at, vec_validate_at,
}
use fyles_release.Crypto.NonceWindow.{
  RollingNonceWindow, valid, is_valid, is_in_bounds, revalidate, advance, new_rolling_nonce_window,
}
use fyles_release.Base.Slots.{mark}
use fyles_release.Crypto.NonceWindow.Window.{Tracks}
use fyles_release.Crypto.NonceWindow.Replay.{Accepted, Refused, is_valid_lem}
use fyles_release.Crypto.NonceWindow.History.{accepted, AllFresh, accepted_once, all_valid-Tracks}
use fyles_release.Crypto.NonceSession.{
  NonceGeneratorValidator, get_next_send_nonce, validate, u64_half,
}
use fyles_release.Crypto.NonceSession.Sending.{send_many, send_many_sides, Between}
use fyles_release.Crypto.NonceSession.Receiving.{validate-get_next_send_nonce, validate_reflected}

abbrev unused : ℕ → Bool
unused x = false

abbrev window4 : RollingNonceWindow (List Bool)
window4 = record { lower_bound = 0; window = true ∷ true ∷ true ∷ true ∷ [] }

abbrev arrivals : List ℕ
arrivals = 1 ∷ 0 ∷ 1 ∷ 3 ∷ 9 ∷ 2 ∷ 5 ∷ 0 ∷ []

accepted-window4 : accepted vec_store window4 arrivals ≡ 1 ∷ 0 ∷ 3 ∷ 2 ∷ 5 ∷ []
unfolding accepted is_valid is_in_bounds revalidate advance vec_get_invalidate_at vec_validate_at
accepted-window4 = refl

window4-Tracks : Tracks vec_store vec_store-Lawful unused window4
window4-Tracks = all_valid-Tracks 4 (omega arith)

is_valid_lem_example :
    ((unused 2 ≡ false)
      × (2 < 4)
      × Accepted vec_store vec_store-Lawful unused window4 2 (is_valid vec_store window4 2))
    ⊎ (((unused 2 ≡ true) ⊎ (4 ≤ 2))
        × Refused vec_store vec_store-Lawful unused window4 (is_valid vec_store window4 2))
is_valid_lem_example =
    is_valid_lem vec_store vec_store-Lawful unused window4 window4-Tracks (omega arith) 2

accepted_once_example : AllFresh (λ _. false) (accepted vec_store new_rolling_nonce_window arrivals)
accepted_once_example = accepted_once arrivals (omega arith)

abbrev initiator : NonceGeneratorValidator (List Bool)
initiator = record { used_nonce_counter = 2; is_initiator_session = true; validator = window4 }

abbrev responder : NonceGeneratorValidator (List Bool)
responder = record { used_nonce_counter = 3; is_initiator_session = false; validator = window4 }

abbrev nearly_exhausted : NonceGeneratorValidator (List Bool)
nearly_exhausted = record responder { used_nonce_counter = u64_half - 2 }

send_many_sides_example : Between u64_half (u64_half + u64_half) (send_many 5 nearly_exhausted)
send_many_sides_example = send_many_sides 5 nearly_exhausted (omega arith)

validate-get_next_send_nonce_example :
    ((validate vec_store initiator (3 + u64_half)).0 ≡ valid)
    × Tracks vec_store vec_store-Lawful
        (mark unused 3)
        (validate vec_store initiator (3 + u64_half)).1.validator
unfolding get_next_send_nonce
validate-get_next_send_nonce_example =
    validate-get_next_send_nonce vec_store vec_store-Lawful unused responder initiator refl
      (omega arith) window4-Tracks (omega arith) refl (omega arith) refl

validate_reflected_example :
    ((validate vec_store initiator 2).0 ≢ valid)
    × Tracks vec_store vec_store-Lawful unused (validate vec_store initiator 2).1.validator
unfolding get_next_send_nonce
validate_reflected_example =
    validate_reflected vec_store vec_store-Lawful unused initiator (omega arith) window4-Tracks
      (omega arith) refl
