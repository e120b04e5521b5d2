-- ===== src/P2p/Data/IdleExpiryMap.antt =====
-- fyles_service/p2p/src/data_structures/idle_expiry_map.rs: a map whose entries expire when they are
-- idle. Each `Instant::now()` is an argument; `duration_since` saturates at 0, as `-` does on ℕ. The
-- calls of `on_expire` are the list `expired`, oldest first.
pub mod View
pub mod Reports
pub mod Entry
pub mod Local
pub mod Access
use fyles_release.Base.{
  ℕ, ◌-◌, Bool, true, false, not, Option, none, some, List, [], ◌∷◌, ◌++◌, if◌then◌else◌, ltb, leb,
  Eq,
}
use fyles_release.Base.HashMap.{HashMap, lookup, insert, remove, retain_values}
use fyles_release.Base.HashMap

pub record TimedEntry (V : Type 0) : Type 0 where
  pub value : V
  pub last_touched : ℕ

pub record IdleExpiryMap (K V : Type 0) : Type 0 where
  pub entries : HashMap K (TimedEntry V)
  pub idle_ttl : ℕ
  pub cleanup_interval : ℕ
  pub last_cleanup : ℕ
  pub expired : List V

module _ {V : Type 0} where
  abbrev pub touch : ℕ → TimedEntry V → TimedEntry V
  touch now entry = record entry { last_touched = now }

  abbrev pub is_expired : ℕ → ℕ → TimedEntry V → Bool
  is_expired idle_ttl now entry = leb idle_ttl (now - entry.last_touched)

  abbrev pub value_of : Option (TimedEntry V) → Option V
  value_of none = none
  value_of (some entry) = some entry.value

  -- What `extract_if` takes out.
  unfoldable pub extracted :
      {K : Type 0} → (TimedEntry V → Bool) → HashMap K (TimedEntry V) → List V
  extracted p [] = []
  extracted p ((k, entry) ∷ m) = if p entry then entry.value ∷ extracted p m else extracted p m

module _ {K V : Type 0} ⦃e : Eq K⦄ where
  unfoldable pub new : ℕ → ℕ → ℕ → IdleExpiryMap K V
  new idle_ttl cleanup_interval now = record {
    entries = [];
    idle_ttl = idle_ttl;
    cleanup_interval = cleanup_interval;
    last_cleanup = now;
    expired = [];
  }

  unfoldable pub cleanup_if_due : IdleExpiryMap K V → ℕ → IdleExpiryMap K V
  cleanup_if_due m now = if ltb (now - m.last_cleanup) m.cleanup_interval then m else record m {
    last_cleanup = now;
    entries = retain_values (λ v. not (is_expired m.idle_ttl now v)) m.entries;
    expired = m.expired ++ extracted (is_expired m.idle_ttl now) m.entries;
  }

  -- The returned value is the one replaced, expired or not.
  unfoldable pub put : IdleExpiryMap K V → K → V → ℕ → Option V × IdleExpiryMap K V
  put m key value now =
      let m' = cleanup_if_due m now in
      (
        value_of (lookup key m'.entries),
        record m' {
          entries = insert key (record { value = value; last_touched = now }) m'.entries;
        },
      )

  get_entry : IdleExpiryMap K V → K → ℕ → Option (TimedEntry V) → Option V × IdleExpiryMap K V
  get_entry m key now none = (none, m)
  get_entry m key now (some entry) =
      if is_expired m.idle_ttl now entry
      then (none, m)
      else (some entry.value, record m { entries = insert key (touch now entry) m.entries })

  -- `get` and `get_mut`.
  unfoldable pub get_mut : IdleExpiryMap K V → K → ℕ → Option V × IdleExpiryMap K V
  unfolding get_entry
  get_mut m key now = let m' = cleanup_if_due m now in get_entry m' key now (lookup key m'.entries)

  -- A write through the reference that `get_mut` returned.
  unfoldable pub write_through : IdleExpiryMap K V → K → V → IdleExpiryMap K V
  write_through m key value = elim (lookup key m.entries) [
    | none ↦ m
    | some entry ↦ record m { entries = insert key (record entry { value = value }) m.entries }
  ]

  unfoldable pub take : IdleExpiryMap K V → K → ℕ → Option V × IdleExpiryMap K V
  take m key now =
      let m' = record m { entries = remove key m.entries } in
      elim (lookup key m.entries) [
        | none ↦ (none, m')
        | some entry ↦
            if is_expired m.idle_ttl now entry then (none, m') else (some entry.value, m')
      ]

  unfoldable pub clear : IdleExpiryMap K V → ℕ → IdleExpiryMap K V
  clear m now = record m { entries = []; last_cleanup = now }
