-- ===== src/Base/Slots.antt =====
-- Windows that number their slots by a remainder, and sets of numbers.
use native.Mathlib.Nat.{mod-lt, mod-eq_of_lt, mod-eq-sub-mod, mod-add-mod, add-mod_right}
use native.Mathlib.Decide.{dec_lt}
use native.Mathlib.Omega.{arith}
use Prim.Native.Nat.{ℕ, suc, ◌+◌, ◌-◌, ◌%◌, ◌≤◌, ◌<◌}
use mathlib.Core.Path.{◌≡◌, sym, ap, ◌∙◌}
use mathlib.Core.Logic.{◌≢◌}
use mathlib.Core.Bool.{Bool, true}
use fyles_release.Base.Tests.{if◌then◌else◌, ◌==◌}

-- Fewer than `n` steps round a window of `n` slots do not come back to the start.
add-mod-ne : (n h k : ℕ) → h < n → suc k < n → (h + suc k) % n ≢ h
add-mod-ne n h k hh hk = elim (dec_lt (h + suc k) n) [
  | yes p ↦ omega (arith, mod-eq_of_lt p)
  | no p ↦ omega (
    arith,
    mod-eq-sub-mod {n = h + suc k} {m = n} (omega arith),
    mod-eq_of_lt {n = h + suc k - n} {m = n} (omega arith),
  )
]

pub slot-ne : (n c y : ℕ) → c < y → y < c + n → c % n ≢ y % n
slot-ne n c y h k e =
    add-mod-ne n (c % n) (y - suc c) (mod-lt c (omega arith)) (omega arith)
      (mod-add-mod c n (suc (y - suc c)) ∙ ap (λ (z : ℕ). z % n) (omega arith) ∙ sym e)

pub slots-ne : (n c x y : ℕ) → c ≤ x → x < c + n → c ≤ y → y < c + n → x ≢ y → x % n ≢ y % n
slots-ne n c x y h i j k d = elim (dec_lt x y) [
  | yes p ↦ slot-ne n x y p (omega arith)
  | no p ↦ λ e. slot-ne n y x (omega arith) (omega arith) (sym e)
]

pub slot_again : (n c y : ℕ) → y ≡ c + n → c % n ≡ y % n
slot_again n c y e = rw e (sym (add-mod_right c n))

-- A set of numbers, with one more.
abbrev pub mark : (ℕ → Bool) → ℕ → ℕ → Bool
mark set x y = if x == y then true else set y
