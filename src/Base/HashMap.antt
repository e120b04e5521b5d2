-- ===== src/Base/HashMap.antt =====
-- `HashMap`: an association list with at most one entry for a key. The order of the entries
-- stands for the unspecified order of iteration.
use mathlib.Core.Path.{◌≡◌, refl}
use mathlib.Core.Bool.{Bool, true}
use mathlib.Core.Option.{Option, none, some}
use mathlib.Core.List.{List, [], ◌∷◌}
use native.Mathlib.Omega.{arith}
use fyles_release.Base.Tests.{if◌then◌else◌}
use fyles_release.Base.Keys.{Eq}

abbrev pub HashMap {ℓ κ} : Type ℓ → Type κ → Type (ℓ ⊔ κ)
HashMap K V = List (K × V)

-- An optional value that passes a test.
abbrev pub keep_if {ℓ} : {V : Type ℓ} → (V → Bool) → Option V → Option V
keep_if p none = none
keep_if p (some v) = if p v then some v else none

module _ {ℓ κ} {K : Type ℓ} {V : Type κ} ⦃e : Eq K⦄ where
  unfoldable pub lookup : K → HashMap K V → Option V
  lookup k [] = none
  lookup k ((j, v) ∷ m) = if e.beq j k then some v else lookup k m

  unfoldable pub insert : K → V → HashMap K V → HashMap K V
  insert k v [] = (k, v) ∷ []
  insert k v ((j, w) ∷ m) = if e.beq j k then (j, v) ∷ m else (j, w) ∷ insert k v m

  unfoldable pub remove : K → HashMap K V → HashMap K V
  remove k [] = []
  remove k ((j, w) ∷ m) = if e.beq j k then remove k m else (j, w) ∷ remove k m

  pub lookup-insert :
      (k j : K) (v : V) (m : HashMap K V)
      → lookup j (insert k v m) ≡ (if e.beq k j then some v else lookup j m)
  unfolding lookup insert
  lookup-insert k j v [] = refl
  lookup-insert k j v ((i, w) ∷ m) =
      ground (arith, e.beq_iff k j, e.beq_iff i k, e.beq_iff i j, lookup-insert k j v m)

  pub lookup-remove :
      (k j : K) (m : HashMap K V) → lookup j (remove k m) ≡ (if e.beq k j then none else lookup j m)
  unfolding lookup remove
  lookup-remove k j [] = ground arith
  lookup-remove k j ((i, w) ∷ m) =
      ground (arith, e.beq_iff k j, e.beq_iff i k, e.beq_iff i j, lookup-remove k j m)

  -- `HashMap::retain` by a test of the value.
  unfoldable pub retain_values : (V → Bool) → HashMap K V → HashMap K V
  retain_values p [] = []
  retain_values p ((j, v) ∷ m) = if p v then (j, v) ∷ retain_values p m else retain_values p m

  -- No key stands twice, as in a hash map.
  abbrev pub IsMap : HashMap K V → Type κ
  IsMap [] = Unit {κ}
  IsMap ((j, v) ∷ m) = (lookup j m ≡ none) × IsMap m

  pub lookup-retain_none :
      (p : V → Bool) (k : K) (m : HashMap K V)
      → lookup k m ≡ none
      → lookup k (retain_values p m) ≡ none
  unfolding lookup retain_values
  lookup-retain_none p k [] h = refl
  lookup-retain_none p k ((j, v) ∷ m) h = ground (arith, lookup-retain_none p k m)

  pub lookup-retain_values :
      (p : V → Bool) (k : K) (m : HashMap K V)
      → IsMap m
      → lookup k (retain_values p m) ≡ keep_if p (lookup k m)
  unfolding lookup retain_values
  lookup-retain_values p k [] h = refl
  lookup-retain_values p k ((j, v) ∷ m) h =
      let same : (e.beq j k ≡ true) → lookup k m ≡ none = λ q. rw (← (e.beq_iff j k).0 q) h.0 in
      ground (arith, same, lookup-retain_none p k m, lookup-retain_values p k m h.1)

  pub retain_values-IsMap : (p : V → Bool) (m : HashMap K V) → IsMap m → IsMap (retain_values p m)
  unfolding retain_values
  retain_values-IsMap p [] h = tt
  retain_values-IsMap p ((j, v) ∷ m) h =
      ground (arith, retain_values-IsMap p m h.1, lookup-retain_none p j m h.0)

  pub insert-IsMap : (k : K) (v : V) (m : HashMap K V) → IsMap m → IsMap (insert k v m)
  unfolding insert
  insert-IsMap k v [] h = (unfold lookup in refl, tt)
  insert-IsMap k v ((j, w) ∷ m) h =
      ground (arith, insert-IsMap k v m h.1, lookup-insert k j v m, e.beq_iff k j, e.beq_iff j k)

  pub remove-IsMap : (k : K) (m : HashMap K V) → IsMap m → IsMap (remove k m)
  unfolding remove
  remove-IsMap k [] h = tt
  remove-IsMap k ((j, w) ∷ m) h = ground (arith, remove-IsMap k m h.1, lookup-remove k j m)

abbrev pub kept_by {κ} : {V : Type κ} → (V → Option V) → Option V → Option V
kept_by f none = none
kept_by f (some v) = f v

module _ {ℓ κ} {K : Type ℓ} {V : Type κ} where
  -- `HashMap::retain` whose closure changes the values that stay.
  unfoldable pub retain_mut : (V → Option V) → HashMap K V → HashMap K V
  retain_mut f [] = []
  retain_mut f ((j, v) ∷ m) =
      let rest = retain_mut f m in elim (f v) [ none ↦ rest | some v' ↦ (j, v') ∷ rest ]

module _ {ℓ κ} {K : Type ℓ} {V : Type κ} ⦃e : Eq K⦄ where
  lookup-retain_mut-none :
      (f : V → Option V) (k : K) (m : HashMap K V)
      → lookup k m ≡ none
      → lookup k (retain_mut f m) ≡ none
  unfolding lookup retain_mut
  lookup-retain_mut-none f k [] h = refl
  lookup-retain_mut-none f k ((j, v) ∷ m) h = ground (arith, lookup-retain_mut-none f k m)

  pub lookup-retain_mut :
      (f : V → Option V) (k : K) (m : HashMap K V)
      → IsMap m
      → lookup k (retain_mut f m) ≡ kept_by f (lookup k m)
  unfolding lookup retain_mut
  lookup-retain_mut f k [] h = refl
  lookup-retain_mut f k ((j, v) ∷ m) h =
      let same : (e.beq j k ≡ true) → lookup k m ≡ none = λ q. rw (← (e.beq_iff j k).0 q) h.0 in
      ground (arith, same, lookup-retain_mut-none f k m, lookup-retain_mut f k m h.1)

  pub retain_mut-IsMap : (f : V → Option V) (m : HashMap K V) → IsMap m → IsMap (retain_mut f m)
  unfolding retain_mut
  retain_mut-IsMap f [] h = tt
  retain_mut-IsMap f ((j, v) ∷ m) h =
      ground (arith, retain_mut-IsMap f m h.1, lookup-retain_mut-none f j m h.0)
