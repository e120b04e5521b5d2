-- ===== src/P2p/Data/IdleExpiryMap/Entry.antt =====
-- The entry interface of fyles_service/p2p/src/data_structures/idle_expiry_map.rs. An entry borrows
-- the map, so it is its key, and each operation takes the map and returns it. A reference into the map
-- is the value that it shows. The key of an occupied entry is in the map while the entry lives; where
-- it is not, the functions leave the map as it is.
use fyles_release.Base.{ℕ, ◌-◌, Option, none, some, [], ◌∷◌, ◌++◌, if◌then◌else◌, ltb, Eq}
use fyles_release.Base.HashMap.{lookup, insert, remove}
use fyles_release.P2p.Data.IdleExpiryMap.{
  TimedEntry, IdleExpiryMap, is_expired, touch, cleanup_if_due, value_of,
}

pub data IdleEntry (K : Type 0) : Type 0 where
  occupied vacant : K → IdleEntry K

module _ {K V : Type 0} ⦃e : Eq K⦄ where
  abbrev pub store_entry : IdleExpiryMap K V → K → TimedEntry V → IdleExpiryMap K V
  store_entry m key timed = record m { entries = insert key timed m.entries }

  -- Take the entry out and hand its value to `on_expire`.
  abbrev pub expire_entry : IdleExpiryMap K V → K → V → IdleExpiryMap K V
  expire_entry m key value = record m {
    entries = remove key m.entries;
    expired = m.expired ++ (value ∷ []);
  }

  unfoldable pub entry_at :
      IdleExpiryMap K V → K → ℕ → Option (TimedEntry V) → IdleEntry K × IdleExpiryMap K V
  entry_at m key now none = (vacant key, m)
  entry_at m key now (some timed) =
      if is_expired m.idle_ttl now timed
      then (vacant key, expire_entry m key timed.value)
      else (occupied key, m)

  unfoldable pub entry : IdleExpiryMap K V → K → ℕ → IdleEntry K × IdleExpiryMap K V
  unfolding entry_at
  entry m key now = let m' = cleanup_if_due m now in entry_at m' key now (lookup key m'.entries)

  -- `OccupiedIdleEntry::get` and `get_mut`.
  unfoldable pub occupied_get : IdleExpiryMap K V → K → ℕ → Option V × IdleExpiryMap K V
  occupied_get m key now = elim (lookup key m.entries) [
    | none ↦ (none, m)
    | some timed ↦
        if ltb (now - timed.last_touched) m.idle_ttl
        then (some timed.value, store_entry m key (touch now timed))
        else (none, m)
  ]

  unfoldable pub occupied_into_mut : IdleExpiryMap K V → K → ℕ → Option V × IdleExpiryMap K V
  occupied_into_mut m key now = elim (lookup key m.entries) [
    | none ↦ (none, m)
    | some timed ↦
        if ltb (now - timed.last_touched) m.idle_ttl
        then (some timed.value, store_entry m key (touch now timed))
        else (none, expire_entry m key timed.value)
  ]

  unfoldable pub occupied_into_mut_or_insert : IdleExpiryMap K V → K → V → ℕ → V × IdleExpiryMap K V
  occupied_into_mut_or_insert m key default now = elim (lookup key m.entries) [
    | none ↦ (default, m)
    | some timed ↦
        if ltb (now - timed.last_touched) m.idle_ttl
        then (timed.value, store_entry m key (touch now timed))
        else (
          default,
          record m {
            entries = insert key (record { value = default; last_touched = now }) m.entries;
            expired = m.expired ++ (timed.value ∷ []);
          },
        )
  ]

  unfoldable pub occupied_insert : IdleExpiryMap K V → K → V → ℕ → Option V × IdleExpiryMap K V
  occupied_insert m key value now = (
    value_of (lookup key m.entries),
    store_entry m key (record { value = value; last_touched = now }),
  )

  unfoldable pub occupied_remove : IdleExpiryMap K V → K → Option V × IdleExpiryMap K V
  occupied_remove m key =
      (value_of (lookup key m.entries), record m { entries = remove key m.entries })

  unfoldable pub occupied_destruct : IdleExpiryMap K V → K → IdleExpiryMap K V
  occupied_destruct m key = elim (lookup key m.entries) [
    | none ↦ m
    | some timed ↦ expire_entry m key timed.value
  ]

  unfoldable pub vacant_insert : IdleExpiryMap K V → K → V → ℕ → V × IdleExpiryMap K V
  vacant_insert m key value now =
      (value, store_entry m key (record { value = value; last_touched = now }))

  unfoldable pub entry_insert :
      IdleExpiryMap K V → IdleEntry K → V → ℕ → Option V × IdleExpiryMap K V
  entry_insert m (occupied key) value now = occupied_insert m key value now
  entry_insert m (vacant key) value now = (none, (vacant_insert m key value now).1)

  -- `or_insert` and `or_insert_with`.
  unfoldable pub or_insert : IdleExpiryMap K V → IdleEntry K → V → ℕ → V × IdleExpiryMap K V
  or_insert m (occupied key) default now = occupied_into_mut_or_insert m key default now
  or_insert m (vacant key) default now = vacant_insert m key default now

  -- An entry that expired meanwhile is dropped without `on_expire`.
  unfoldable pub and_modify :
      IdleExpiryMap K V → IdleEntry K → (V → V) → ℕ → IdleEntry K × IdleExpiryMap K V
  and_modify m (vacant key) f now = (vacant key, m)
  and_modify m (occupied key) f now = elim (lookup key m.entries) [
    | none ↦ (occupied key, m)
    | some timed ↦
        if ltb (now - timed.last_touched) m.idle_ttl
        then (
          occupied key,
          store_entry m key (record { value = f timed.value; last_touched = now }),
        )
        else (vacant key, record m { entries = remove key m.entries })
  ]
