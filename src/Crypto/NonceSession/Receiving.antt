-- ===== src/Crypto/NonceSession/Receiving.antt =====
-- What one side of a session accepts of what the other side numbered.
use mathlib.Core.Bool.{false≢true}
use fyles_release.Base.{ℕ, ◌≤◌, ◌<◌, ◌≡◌, ◌≢◌, sym, ◌∙◌, Bool, false, not, arith, inl, inr}
use fyles_release.Crypto.BitStore.{BitStore, Lawful, vec_store}
use fyles_release.Crypto.NonceWindow.{valid, u64_mod}
use fyles_release.Base.Slots.{mark}
use fyles_release.Crypto.NonceWindow.Window.{Tracks}
use fyles_release.Crypto.NonceWindow.Replay.{is_valid_lem, upper}
use fyles_release.Crypto.NonceSession.{
  NonceGeneratorValidator, generated, get_next_send_nonce, u64_half, validate, unshift,
}

module _ {T : Type 0} where
  unshift_peer :
      (sender : NonceGeneratorValidator T) (receiver : Bool) (nonce : ℕ)
      → sender.is_initiator_session ≡ not receiver
      → sender.used_nonce_counter ≤ u64_half
      → (get_next_send_nonce sender).0 ≡ generated nonce
      → unshift receiver nonce ≡ sender.used_nonce_counter
  unfolding get_next_send_nonce
  unshift_peer sender receiver nonce flip l e = ground arith

  unshift_own :
      (g : NonceGeneratorValidator T) (nonce : ℕ)
      → g.used_nonce_counter ≤ u64_half
      → (get_next_send_nonce g).0 ≡ generated nonce
      → u64_half ≤ unshift g.is_initiator_session nonce
  unfolding get_next_send_nonce
  unshift_own g nonce l e = ground arith

module _ {T : Type 0} (b : BitStore T) (laws : Lawful b) (used : ℕ → Bool) where
  -- Between two sides with opposite roles, the nonce that the sender takes from a counter within
  -- its half of the space is valid at the receiver, if the receiver has not used that counter value
  -- and it lies below the end of the window; it then counts as used.
  pub validate-get_next_send_nonce :
      (sender receiver : NonceGeneratorValidator T) {nonce : ℕ}
      → sender.is_initiator_session ≡ not receiver.is_initiator_session
      → sender.used_nonce_counter ≤ u64_half
      → Tracks b laws used receiver.validator
      → upper b laws receiver.validator < u64_mod
      → used sender.used_nonce_counter ≡ false
      → sender.used_nonce_counter < upper b laws receiver.validator
      → (get_next_send_nonce sender).0 ≡ generated nonce
      → ((validate b receiver nonce).0 ≡ valid)
        × Tracks b laws
            (mark used sender.used_nonce_counter)
            (validate b receiver nonce).1.validator
  unfolding validate
  validate-get_next_send_nonce sender receiver {nonce} flip l k fits new m e =
      rw (unshift_peer sender receiver.is_initiator_session nonce flip l e)
        (elim (is_valid_lem b laws used receiver.validator k fits sender.used_nonce_counter) [
          | inl (_, _, (v, t, _, _)) ↦ (v, t)
          | inr (inl old, _) ↦ absurd (false≢true (sym new ∙ old))
          | inr (inr beyond, _) ↦ absurd (omega arith)
        ])

  -- A side refuses a nonce that it generated itself, if its receive window ends within the first
  -- half of the space, and its record of used nonces does not change.
  pub validate_reflected :
      (g : NonceGeneratorValidator T) {nonce : ℕ}
      → g.used_nonce_counter ≤ u64_half
      → Tracks b laws used g.validator
      → upper b laws g.validator ≤ u64_half
      → (get_next_send_nonce g).0 ≡ generated nonce
      → ((validate b g nonce).0 ≢ valid) × Tracks b laws used (validate b g nonce).1.validator
  unfolding validate
  validate_reflected g {nonce} l k fits e =
      let far = unshift_own g nonce l e in
      elim (is_valid_lem b laws used g.validator k (omega arith)
        (unshift g.is_initiator_session nonce)) [
          | inl (_, near, _) ↦ absurd (omega arith)
          | inr (_, (v, t, _, _)) ↦ (v, t)
        ]
