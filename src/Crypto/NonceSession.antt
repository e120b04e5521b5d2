-- ===== src/Crypto/NonceSession.antt =====
-- fyles_service/crypto/src/rolling_nonce_window.rs: `NonceGeneratorValidator`, which numbers the
-- messages that a side of a session sends and validates those that it receives.
pub mod Sending
pub mod Receiving
use fyles_release.Base.{ℕ, ◌+◌, ◌-◌, ◌/◌, ◌%◌, Bool, true, false, if◌then◌else◌, ◌==◌, List}
use fyles_release.Crypto.BitStore.{BitStore, vec_store}
use fyles_release.Crypto.NonceWindow.{
  RollingNonceWindow, Verdict, u64_mod, is_valid, new_rolling_nonce_window,
}

-- `U64_HALF`: `u64::MAX / 2`.
abbrev pub u64_half : ℕ
u64_half = (u64_mod - 1) / 2

-- `NonceGenerationError`.
pub data Generated : Type 0 where
  generated : ℕ → Generated
  nonce_space_exhausted : Generated

pub record NonceGeneratorValidator (T : Type 0) : Type 0 where
  pub used_nonce_counter : ℕ
  pub is_initiator_session : Bool
  pub validator : RollingNonceWindow T

-- The subtraction wraps, as in a build without overflow checks.
abbrev pub sub_u64 : ℕ → ℕ → ℕ
sub_u64 a b = (a + u64_mod - b) % u64_mod

-- The argument of `is_valid`: the responder's nonces are shifted by half of the space.
abbrev pub unshift : Bool → ℕ → ℕ
unshift is_initiator nonce = if is_initiator then sub_u64 nonce u64_half else nonce

module _ {T : Type 0} where
  unfoldable pub get_next_send_nonce :
      NonceGeneratorValidator T → Generated × NonceGeneratorValidator T
  get_next_send_nonce g =
      if g.used_nonce_counter == u64_half
      then (nonce_space_exhausted, g)
      else (let nonce = g.used_nonce_counter in
          let g' = record g { used_nonce_counter = nonce + 1 } in
          if g.is_initiator_session
          then (generated nonce, g')
          else (generated (nonce + u64_half), g'))

  unfoldable pub validate :
      BitStore T → NonceGeneratorValidator T → ℕ → Verdict × NonceGeneratorValidator T
  validate b g nonce =
      let (verdict, w) = is_valid b g.validator (unshift g.is_initiator_session nonce) in
      (verdict, record g { validator = w })

unfoldable pub new_nonce_generator_validator_for_session_initiator :
    NonceGeneratorValidator (List Bool)
new_nonce_generator_validator_for_session_initiator = record {
  used_nonce_counter = 0;
  is_initiator_session = true;
  validator = new_rolling_nonce_window;
}

unfoldable pub new_nonce_generator_validator_for_session_responder :
    NonceGeneratorValidator (List Bool)
new_nonce_generator_validator_for_session_responder = record {
  used_nonce_counter = 0;
  is_initiator_session = false;
  validator = new_rolling_nonce_window;
}
