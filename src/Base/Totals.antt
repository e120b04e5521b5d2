-- ===== src/Base/Totals.antt =====
-- Sums and concatenations over the first numbers.
use Prim.Native.Nat.{ℕ, zero, suc, ◌+◌, ◌≤◌}
use mathlib.Core.Path.{◌≡◌}
use mathlib.Core.List.{List, [], ◌++◌}
use native.Mathlib.Decide.{ℕ_discrete}
use native.Mathlib.Numerals.{add-one}
use native.Mathlib.Omega.{arith}

-- The bytes of the first `n` chunks.
abbrev pub total : (ℕ → ℕ) → ℕ → ℕ
total sizes zero = 0
total sizes (suc n) = total sizes n + sizes n

pub total-add_one : (sizes : ℕ → ℕ) (n : ℕ) → total sizes (n + 1) ≡ total sizes n + sizes n
total-add_one sizes n = rw add-one

pub total_mono : (sizes : ℕ → ℕ) (m n : ℕ) → m ≤ n → total sizes m ≤ total sizes n
total_mono sizes m zero h = let e : m ≡ 0 = omega arith in rw e (omega arith)
total_mono sizes m (suc n) h = elim (ℕ_discrete m (suc n)) [
  | yes e ↦ rw e (omega arith)
  | no d ↦ omega (arith, total_mono sizes m n (omega arith))
]

-- The first `n` pieces, one after the other.
abbrev pub joined {ℓ} : {A : Type ℓ} → (ℕ → List A) → ℕ → List A
joined pieces zero = []
joined pieces (suc n) = joined pieces n ++ pieces n

pub joined-add_one {ℓ} :
    {A : Type ℓ} (pieces : ℕ → List A) (n : ℕ) → joined pieces (n + 1) ≡ joined pieces n ++ pieces n
joined-add_one pieces n = rw add-one
