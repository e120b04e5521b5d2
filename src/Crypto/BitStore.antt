-- ===== src/Crypto/BitStore.antt =====
-- fyles_service/crypto/src/rolling_nonce_window.rs: the trait `BitStore` and its `Vec<bool>`.
use fyles_release.Base.{
  ℕ, ◌<◌, ◌≡◌, Bool, true, false, not, none, some, List, arith, if◌then◌else◌, ◌==◌, length,
  get_elem?, set, length-set, get_elem?-set_self, get_elem?-set_ne, get_elem?-some, get_elem?-none,
  dec_lt,
}

-- `trait BitStore`. A method with `&mut self` returns its result and the new store.
pub record BitStore (T : Type 0) : Type 0 where
  pub size : T → ℕ
  pub get_invalidate_at : T → ℕ → Bool × T
  pub validate_at : T → ℕ → Bool × T

-- What the comments of the trait promise, stated by the bit that a store holds at an index.
pub record Lawful {T : Type 0} (b : BitStore T) : Type 0 where
  pub bit : T → ℕ → Bool
  pub size-get_invalidate_at : (t : T) (i : ℕ) → b.size (b.get_invalidate_at t i).1 ≡ b.size t
  pub size-validate_at : (t : T) (i : ℕ) → b.size (b.validate_at t i).1 ≡ b.size t
  pub get_invalidate_at_result : (t : T) (i : ℕ) → (b.get_invalidate_at t i).0 ≡ bit t i
  pub bit-get_invalidate_at :
      (t : T) (i j : ℕ) → bit (b.get_invalidate_at t i).1 j ≡ (if i == j then false else bit t j)
  pub validate_at_result : (t : T) (i : ℕ) → i < b.size t → (b.validate_at t i).0 ≡ not (bit t i)
  pub bit-validate_at :
      (t : T) (i j : ℕ)
      → i < b.size t
      → bit (b.validate_at t i).1 j ≡ (if i == j then true else bit t j)

-- `impl BitStore for Vec<bool>`: an index out of range reads `false` and writes nothing.
unfoldable pub vec_get_invalidate_at : List Bool → ℕ → Bool × List Bool
vec_get_invalidate_at v i = elim (get_elem? v i) [
  | some valid ↦ (valid, set v i false)
  | none ↦ (false, v)
]

unfoldable pub vec_validate_at : List Bool → ℕ → Bool × List Bool
vec_validate_at v i = elim (get_elem? v i) [
  | some valid ↦ if valid then (false, v) else (true, set v i true)
  | none ↦ (false, v)
]

instance abbrev pub vec_store : BitStore (List Bool)
vec_store = record {
  size = length;
  get_invalidate_at = vec_get_invalidate_at;
  validate_at = vec_validate_at;
}

abbrev pub vec_bit : List Bool → ℕ → Bool
vec_bit v i = elim (get_elem? v i) [ some valid ↦ valid | none ↦ false ]

pub vec_bit-set :
    (v : List Bool) (i j : ℕ) (b : Bool)
    → i < length v
    → vec_bit (set v i b) j ≡ (if i == j then b else vec_bit v j)
vec_bit-set v i j b h = ground (arith, get_elem?-set_self v i b h, get_elem?-set_ne v i j b)

pub vec_bit-get_invalidate_at :
    (v : List Bool) (i j : ℕ)
    → vec_bit (vec_get_invalidate_at v i).1 j ≡ (if i == j then false else vec_bit v j)
unfolding vec_get_invalidate_at
vec_bit-get_invalidate_at v i j = elim (dec_lt i (length v)) [
  | yes h ↦ ground (arith, get_elem?-some v i h, vec_bit-set v i j false h)
  | no h ↦ ground (arith, get_elem?-none v i)
]

pub length-vec_get_invalidate_at :
    (v : List Bool) (i : ℕ) → length (vec_get_invalidate_at v i).1 ≡ length v
unfolding vec_get_invalidate_at
length-vec_get_invalidate_at v i = ground (arith, length-set v i false)

pub length-vec_validate_at : (v : List Bool) (i : ℕ) → length (vec_validate_at v i).1 ≡ length v
unfolding vec_validate_at
length-vec_validate_at v i = ground (arith, length-set v i true)

pub vec_get_invalidate_at_result :
    (v : List Bool) (i : ℕ) → (vec_get_invalidate_at v i).0 ≡ vec_bit v i
unfolding vec_get_invalidate_at
vec_get_invalidate_at_result v i = ground arith

pub vec_validate_at_result :
    (v : List Bool) (i : ℕ) → i < length v → (vec_validate_at v i).0 ≡ not (vec_bit v i)
unfolding vec_validate_at
vec_validate_at_result v i h = ground (arith, get_elem?-some v i h)

pub vec_bit-validate_at :
    (v : List Bool) (i j : ℕ)
    → i < length v
    → vec_bit (vec_validate_at v i).1 j ≡ (if i == j then true else vec_bit v j)
unfolding vec_validate_at
vec_bit-validate_at v i j h = ground (arith, get_elem?-some v i h, vec_bit-set v i j true h)

-- The vector keeps the promises of the trait.
unfoldable pub vec_store-Lawful : Lawful vec_store
vec_store-Lawful = record {
  bit = vec_bit;
  size-get_invalidate_at = length-vec_get_invalidate_at;
  size-validate_at = length-vec_validate_at;
  get_invalidate_at_result = vec_get_invalidate_at_result;
  bit-get_invalidate_at = vec_bit-get_invalidate_at;
  validate_at_result = vec_validate_at_result;
  bit-validate_at = vec_bit-validate_at;
}
