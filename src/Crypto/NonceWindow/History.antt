-- ===== src/Crypto/NonceWindow/History.antt =====
-- A window over a whole history of calls.
use native.Mathlib.Nat.{mod-lt}
use fyles_release.Base.{
  ℕ, zero, suc, ◌+◌, ◌*◌, ◌%◌, ◌<◌, ◌≡◌, ◌≢◌, refl, ◌∙◌, Bool, true, false, if◌then◌else◌, arith,
  inl, inr, List, [], ◌∷◌, length, replicate, length-replicate,
}
use fyles_release.Crypto.BitStore.{BitStore, Lawful, vec_bit, vec_store, vec_store-Lawful}
use fyles_release.Crypto.NonceWindow.{
  RollingNonceWindow, Verdict, valid, invalid, diverged, u64_mod, is_valid,
  new_rolling_nonce_window,
}
use fyles_release.Base.Slots.{mark}
use fyles_release.Crypto.NonceWindow.Window.{Tracks}
use fyles_release.Crypto.NonceWindow.Replay.{is_valid_lem}

abbrev pub accepts : Verdict → Bool
accepts valid = true
accepts _ = false

-- The nonces that a sequence of calls accepts, in order.
unfoldable pub accepted : {T : Type 0} → BitStore T → RollingNonceWindow T → List ℕ → List ℕ
accepted b w [] = []
accepted b w (x ∷ xs) =
    let (verdict, w') = is_valid b w x in
    let rest = accepted b w' xs in if accepts verdict then x ∷ rest else rest

-- No nonce of the list is used, nor occurs twice.
abbrev pub AllFresh : (ℕ → Bool) → List ℕ → Type 0
AllFresh used [] = Unit {0}
AllFresh used (x ∷ xs) = (used x ≡ false) × AllFresh (mark used x) xs

abbrev accepts-valid : {v : Verdict} → v ≡ valid → accepts v ≡ true
accepts-valid e = rw e

accepts-ne : (v : Verdict) → v ≢ valid → accepts v ≡ false
accepts-ne valid h = absurd (h refl)
accepts-ne (invalid e) h = refl
accepts-ne diverged h = refl

module _ {T : Type 0} (b : BitStore T) (laws : Lawful b) where
  accepted-AllFresh :
      (used : ℕ → Bool) (n : ℕ) (w : RollingNonceWindow T) (xs : List ℕ)
      → Tracks b laws used w
      → b.size w.window ≡ n
      → w.lower_bound + n * suc (length xs) < u64_mod
      → AllFresh used (accepted b w xs)
  unfolding accepted
  accepted-AllFresh used n w [] k s fits = tt
  accepted-AllFresh used n w (x ∷ xs) k s fits =
      elim (is_valid_lem b laws used w k (omega arith) x) [
        | inl (new, m, (e, k', l, s')) ↦
            rw (e) (
              new,
              accepted-AllFresh (mark used x) n (is_valid b w x).1 xs k' (s' ∙ s) (omega arith),
            )
        | inr (_, (e, k', l, s')) ↦
            rw (accepts-ne _ e)
              (accepted-AllFresh used n (is_valid b w x).1 xs k' (s' ∙ s) (omega arith))
      ]

all_valid : (n x : ℕ) → x < n → vec_bit (replicate n true) x ≡ true
all_valid zero x h = absurd (omega arith)
all_valid (suc n) zero h = refl
all_valid (suc n) (suc x) h = all_valid n x (omega arith)

pub all_valid-Tracks :
    (n : ℕ)
    → 0 < n
    → Tracks vec_store vec_store-Lawful
        (λ _. false)
        (record { lower_bound = 0; window = replicate n true })
unfolding vec_store-Lawful
all_valid-Tracks n h = record {
  agrees = record {
    below = λ x l. absurd (omega arith);
    slots = λ x l m. rw length-replicate (all_valid n (x % n) (mod-lt x h));
    above = λ x l. refl;
  };
  room = omega (arith, length-replicate n true);
  next_fresh = refl;
}

-- The new window has used no nonce.
pub new_rolling_nonce_window-Tracks :
    Tracks vec_store vec_store-Lawful (λ _. false) new_rolling_nonce_window
unfolding new_rolling_nonce_window
new_rolling_nonce_window-Tracks = all_valid-Tracks 100 (omega arith)

-- From a new window, no sequence of calls accepts a nonce twice, however the nonces arrive, as long
-- as a hundred times the number of calls plus one stays below the end of a u64.
pub accepted_once :
    (xs : List ℕ)
    → 100 * suc (length xs) < u64_mod
    → AllFresh (λ _. false) (accepted vec_store new_rolling_nonce_window xs)
unfolding new_rolling_nonce_window
accepted_once xs h =
    accepted-AllFresh vec_store vec_store-Lawful (λ _. false) 100
      (record { lower_bound = 0; window = replicate 100 true }) xs
      (all_valid-Tracks 100 (omega arith)) refl (omega arith)
