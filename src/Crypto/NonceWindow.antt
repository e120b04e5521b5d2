-- ===== src/Crypto/NonceWindow.antt =====
-- fyles_service/crypto/src/rolling_nonce_window.rs: `RollingNonceWindow` over any bit store.
pub mod Window
pub mod Replay
pub mod History
use fyles_release.Base.{
  ℕ, zero, suc, ◌+◌, ◌%◌, ◌^◌, Bool, true, false, ◌&&◌, Option, none, some, if◌then◌else◌, ◌==◌,
  ltb, leb, List, replicate,
}
use fyles_release.Crypto.BitStore.{BitStore}

-- The number of values of a `u64`.
abbrev pub u64_mod : ℕ
u64_mod = 2 ^ 64

-- `modulo`, whose window is never empty where the code calls it.
abbrev pub modulo : ℕ → ℕ → ℕ
modulo nonce window_size = nonce % window_size

pub data BitStoreError : Type 0 where
  out_of_bounds_access : ℕ → ℕ → ℕ → BitStoreError
  repeated_access : ℕ → BitStoreError

-- The outcome of a validation; `diverged` stands for a loop that never ends.
pub data Verdict : Type 0 where
  valid : Verdict
  invalid : BitStoreError → Verdict
  diverged : Verdict

pub record RollingNonceWindow (T : Type 0) : Type 0 where
  pub lower_bound : ℕ
  pub window : T

module _ {T : Type 0} (b : BitStore T) where
  unfoldable pub is_in_bounds : RollingNonceWindow T → ℕ → Bool
  is_in_bounds w nonce =
      leb w.lower_bound nonce && ltb nonce ((w.lower_bound + b.size w.window) % u64_mod)

  -- `while self.window.validate_at(modulo(nonce, size)) { nonce += 1; }`, on fuel.
  unfoldable pub revalidate : ℕ → T → ℕ → Option (ℕ × T)
  revalidate zero t nonce = none
  revalidate (suc fuel) t nonce =
      let (changed, t') = b.validate_at t (modulo nonce (b.size t)) in
      let rest = revalidate fuel t' ((nonce + 1) % u64_mod) in
      if changed then rest else some (nonce, t')

  -- A window of `n` bits is revalidated in at most `n` rounds and one more test.
  unfoldable pub advance : RollingNonceWindow T → T → ℕ → Verdict × RollingNonceWindow T
  advance w t nonce = elim (revalidate (suc (b.size t)) t nonce) [
    | some (next, t') ↦ (valid, record { lower_bound = next; window = t' })
    | none ↦ (diverged, record w { window = t })
  ]

  unfoldable pub is_valid : RollingNonceWindow T → ℕ → Verdict × RollingNonceWindow T
  is_valid w nonce =
      let max = (w.lower_bound + b.size w.window) % u64_mod in
      let (fresh, t) = b.get_invalidate_at w.window (modulo nonce (b.size w.window)) in
      let w' = record w { window = t } in
      if is_in_bounds w nonce
      then (if fresh
          then (if nonce == w.lower_bound then advance w t nonce else (valid, w'))
          else (invalid (repeated_access nonce), w'))
      else (invalid (out_of_bounds_access nonce w.lower_bound max), w)

-- `new_rolling_nonce_window`.
unfoldable pub new_rolling_nonce_window : RollingNonceWindow (List Bool)
new_rolling_nonce_window = record { lower_bound = 0; window = replicate 100 true }
