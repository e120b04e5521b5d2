-- ===== src/Core/TtlMap.antt =====
-- fyles_service/core/src/library/ttlmap.rs: a map whose entries all live for the same time. The map under
-- it is third-party code. Each call reads the clock once; times are milliseconds.
use fyles_release.Base.{ℕ, ◌≤◌, ◌<◌, ◌+◌, ◌≡◌, Bool, true, false, Option, none, some}

-- `ExpiringMap` of the crate expiringmap. An insertion takes the time to live, and gives the value that
-- was there with whether it expired.
pub record ExpiringMap (M K V : Type 0) : Type 0 where
  pub empty : M
  pub vacuum_if_needed : M → ℕ → M
  pub insert : M → K → V → ℕ → ℕ → Option (Bool × V) × M
  pub get : M → K → ℕ → Option V
  pub remove_entry : M → K → ℕ → Option V × M

-- What is documented of it, for the key that a call names.
pub record Lawful {M K V : Type 0} (e : ExpiringMap M K V) : Type 0 where
  pub get-vacuum_if_needed :
      (m : M) (k : K) (now later : ℕ)
      → now ≤ later
      → e.get (e.vacuum_if_needed m now) k later ≡ e.get m k later
  pub insert_old :
      (m : M) (k : K) (v w : V) (ttl now : ℕ)
      → e.get m k now ≡ some w
      → (e.insert m k v ttl now).0 ≡ some (false, w)
  pub get-insert :
      (m : M) (k : K) (v : V) (ttl now later : ℕ)
      → now ≤ later
      → later < now + ttl
      → e.get (e.insert m k v ttl now).1 k later ≡ some v
  pub remove_found :
      (m : M) (k : K) (v : V) (now : ℕ)
      → e.get m k now ≡ some v
      → (e.remove_entry m k now).0 ≡ some v
  pub get-remove_entry :
      (m : M) (k : K) (now later : ℕ)
      → now ≤ later
      → e.get (e.remove_entry m k now).1 k later ≡ none

pub record TtlMap (M : Type 0) : Type 0 where
  pub map : M
  pub ttl : ℕ

module _ {M K V : Type 0} (e : ExpiringMap M K V) where
  unfoldable pub new : ℕ → TtlMap M
  new ttl = record { map = e.empty; ttl = ttl }

  abbrev pub unexpired : Option (Bool × V) → Option V
  unexpired none = none
  unexpired (some (true, v)) = none
  unexpired (some (false, v)) = some v

  unfoldable pub insert : TtlMap M → K → V → ℕ → Option V × TtlMap M
  insert m key value now =
      let (old, map') = e.insert (e.vacuum_if_needed m.map now) key value m.ttl now in
      (unexpired old, record m { map = map' })

  unfoldable pub get : TtlMap M → K → ℕ → Option V
  get m key now = e.get m.map key now

  unfoldable pub remove : TtlMap M → K → ℕ → Option V × TtlMap M
  remove m key now =
      let (removed, map') = e.remove_entry m.map key now in (removed, record m { map = map' })

  unfoldable pub clear : TtlMap M → TtlMap M
  clear m = record m { map = (new m.ttl).map }
