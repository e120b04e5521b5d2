-- ===== src/P2p/Data/ScopedExpiryMap.antt =====
-- fyles_service/p2p/src/data_structures/scoped_expiry_map.rs: for each scope a queue of values that
-- expire, and the whole scope when it is idle. Each `Instant::now()` is an argument; the lock is held for a
-- whole call. Instants and durations are numbers, whose difference stops at 0 as `duration_since` does.
pub mod View
pub mod Timely
pub mod Client
use fyles_release.Base.{
  ℕ, ◌+◌, ◌-◌, Bool, true, false, not, Option, none, some, List, [], ◌∷◌, ◌++◌, if◌then◌else◌, ltb,
  leb, Eq, retain, reverse, map,
}
use fyles_release.Base.HashMap.{HashMap, lookup, insert, remove, retain_mut}

pub record TimedValue (V : Type 0) : Type 0 where
  pub value : V
  pub expires_at : ℕ

-- The queue from the oldest entry to the newest.
pub record ScopeQueue (V : Type 0) : Type 0 where
  pub entries : List (TimedValue V)
  pub last_touched : ℕ

pub record ScopedExpiryMap (K V : Type 0) : Type 0 where
  pub scopes : HashMap K (ScopeQueue V)
  pub last_cleanup : ℕ
  pub scope_idle_ttl : ℕ
  pub value_ttl : ℕ
  pub cleanup_interval : ℕ

module _ {V : Type 0} where
  abbrev pub new_queue : ℕ → ScopeQueue V
  new_queue now = record { entries = []; last_touched = now }

  abbrev pub touch : ScopeQueue V → ℕ → ScopeQueue V
  touch q now = record q { last_touched = now }

  abbrev pub push_queue : ScopeQueue V → V → ℕ → ℕ → ScopeQueue V
  push_queue q value ttl now = record {
    entries = q.entries ++ (record { value = value; expires_at = now + ttl } ∷ []);
    last_touched = now;
  }

  abbrev pub is_valid : ℕ → TimedValue V → Bool
  is_valid now entry = ltb now entry.expires_at

  abbrev pub values : List (TimedValue V) → List V
  values [] = []
  values (x ∷ xs) = x.value ∷ values xs

  -- What the iterator of `valid_values_newest_first` gives.
  abbrev pub valid_values_newest_first : ScopeQueue V → ℕ → List V
  valid_values_newest_first q now = values (retain (is_valid now) (reverse q.entries))

  abbrev pub prune_expired : ScopeQueue V → ℕ → ScopeQueue V
  prune_expired q now = record q { entries = retain (is_valid now) q.entries }

  abbrev pub is_idle : ScopeQueue V → ℕ → ℕ → Bool
  is_idle q ttl now = leb ttl (now - q.last_touched)

  abbrev pub no_entries : List (TimedValue V) → Bool
  no_entries [] = true
  no_entries (x ∷ xs) = false

  -- Whether no entry is valid.
  abbrev pub is_empty : ScopeQueue V → ℕ → Bool
  is_empty q now = no_entries (retain (is_valid now) q.entries)

  -- The closure of the cleanup; `is_empty` reads the clock again.
  abbrev pub clean : ℕ → ℕ → ℕ → ScopeQueue V → Option (ScopeQueue V)
  clean idle now again q =
      if is_idle q idle now
      then none
      else (if is_empty (prune_expired q now) again then none else some (prune_expired q now))

  abbrev pub or_new : Option (ScopeQueue V) → ℕ → ScopeQueue V
  or_new none now = new_queue now
  or_new (some q) now = q

module _ {K V : Type 0} where
  unfoldable pub new : ℕ → ℕ → ℕ → ℕ → ScopedExpiryMap K V
  new scope_idle_ttl value_ttl cleanup_interval now = record {
    scopes = [];
    last_cleanup = now;
    scope_idle_ttl = scope_idle_ttl;
    value_ttl = value_ttl;
    cleanup_interval = cleanup_interval;
  }

  unfoldable pub cleanup_if_due : ScopedExpiryMap K V → ℕ → ℕ → ScopedExpiryMap K V
  cleanup_if_due m now again =
      if ltb (now - m.last_cleanup) m.cleanup_interval then m else record m {
        last_cleanup = now;
        scopes = retain_mut (clean m.scope_idle_ttl now again) m.scopes;
      }

  unfoldable pub clear : ScopedExpiryMap K V → ℕ → ScopedExpiryMap K V
  clear m now = record m { scopes = []; last_cleanup = now }

module _ {K V : Type 0} ⦃e : Eq K⦄ where
  unfoldable pub push : ScopedExpiryMap K V → K → V → ℕ → ℕ → ScopedExpiryMap K V
  push m scope value now again =
      let m' = cleanup_if_due m now again in
      let q = or_new (lookup scope m'.scopes) now in
      record m' { scopes = insert scope (push_queue q value m.value_ttl now) m'.scopes }

  unfoldable pub get : ScopedExpiryMap K V → K → ℕ → ℕ → List V × ScopedExpiryMap K V
  get m scope now again =
      let m' = cleanup_if_due m now again in
      elim (lookup scope m'.scopes) [
        | none ↦ ([], m')
        | some q ↦ (
          valid_values_newest_first q now,
          record m' { scopes = insert scope (touch q now) m'.scopes },
        )
      ]

  unfoldable pub remove_scope : ScopedExpiryMap K V → K → ScopedExpiryMap K V
  remove_scope m scope = record m { scopes = remove scope m.scopes }
