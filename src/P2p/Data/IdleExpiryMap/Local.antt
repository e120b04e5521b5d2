-- ===== src/P2p/Data/IdleExpiryMap/Local.antt =====
-- Each operation on a key leaves what a client sees of the other keys.
use fyles_release.Base.{
  ℕ, ◌≤◌, ◌≡◌, refl, ◌∙◌, false, Option, none, some, arith, Eq, Option-cases, inl, inr,
}
use fyles_release.Base.HashMap.{
  lookup, remove, lookup-insert, lookup-remove, insert-IsMap, remove-IsMap,
}
use fyles_release.P2p.Data.IdleExpiryMap.{
  TimedEntry, IdleExpiryMap, touch, cleanup_if_due, get_entry, get_mut, write_through, take,
}
use fyles_release.P2p.Data.IdleExpiryMap.View.{
  view, IsWell, view-cleanup_if_due, cleanup_if_due-IsWell,
}
use fyles_release.P2p.Data.IdleExpiryMap.Entry.{
  IdleEntry, occupied, vacant, entry, entry_at, occupied_get, occupied_insert, vacant_insert,
  entry_insert, occupied_destruct, store_entry, expire_entry,
}

abbrev pub entry_key : {K : Type 0} → IdleEntry K → K
entry_key (occupied key) = key
entry_key (vacant key) = key

module _ {K V : Type 0} ⦃e : Eq K⦄ (key : K) where
  -- From `m` to `m'` nothing changes but at `key`, as seen from the time `now` on.
  pub record Local (now : ℕ) (m m' : IdleExpiryMap K V) : Type 0 where
    pub well : IsWell m'
    pub same :
        (j : K) (later : ℕ) → e.beq key j ≡ false → now ≤ later → view m' j later ≡ view m j later

  pub Local-refl : (now : ℕ) (m : IdleExpiryMap K V) → IsWell m → Local now m m
  Local-refl now m w = record { well = w; same = λ j later d h. refl }

  pub Local-trans :
      (now now' : ℕ) (m m' m'' : IdleExpiryMap K V)
      → now ≤ now'
      → Local now m m'
      → Local now' m' m''
      → Local now' m m''
  Local-trans now now' m m' m'' h p q = record {
    well = q.well;
    same = λ j later d l. q.same j later d l ∙ p.same j later d (omega arith);
  }

  pub cleanup_if_due-Local :
      (m : IdleExpiryMap K V) (now : ℕ) → IsWell m → Local now m (cleanup_if_due m now)
  cleanup_if_due-Local m now w = record {
    well = cleanup_if_due-IsWell m now w;
    same = λ j later d h. view-cleanup_if_due m now later j w h;
  }

  -- Writing or removing the entry of the key, whatever else is recorded.
  pub store-Local :
      (now : ℕ) (m : IdleExpiryMap K V) (timed : TimedEntry V)
      → IsWell m
      → Local now m (store_entry m key timed)
  store-Local now m timed w = record {
    well = insert-IsMap key timed m.entries w;
    same = λ j later d h. ground (arith, lookup-insert key j timed m.entries);
  }

  pub remove-Local :
      (now : ℕ) (m m' : IdleExpiryMap K V)
      → IsWell m
      → m'.entries ≡ remove key m.entries
      → m'.idle_ttl ≡ m.idle_ttl
      → Local now m m'
  remove-Local now m m' w q t = record {
    well = rw q (remove-IsMap key m.entries w);
    same = λ j later d h. rw (q, t, lookup-remove, d);
  }

  entry_at-Local :
      (now : ℕ) (m : IdleExpiryMap K V) (o : Option (TimedEntry V))
      → IsWell m
      → Local now m (entry_at m key now o).1
  unfolding entry_at
  entry_at-Local now m none w = Local-refl now m w
  entry_at-Local now m (some timed) w =
      ground
        (arith, Local-refl now m w, remove-Local now m (expire_entry m key timed.value) w refl refl)

  pub entry-Local : (now : ℕ) (m : IdleExpiryMap K V) → IsWell m → Local now m (entry m key now).1
  unfolding entry
  entry-Local now m w =
      let m' = cleanup_if_due m now in
      Local-trans now now m m' (entry m key now).1 (omega arith) (cleanup_if_due-Local m now w)
        (entry_at-Local now m' (lookup key m'.entries) (cleanup_if_due-IsWell m now w))

  get_entry-Local :
      (now : ℕ) (m : IdleExpiryMap K V) (o : Option (TimedEntry V))
      → IsWell m
      → Local now m (get_entry m key now o).1
  unfolding get_entry
  get_entry-Local now m none w = Local-refl now m w
  get_entry-Local now m (some timed) w =
      ground (arith, Local-refl now m w, store-Local now m (touch now timed) w)

  pub get_mut-Local :
      (now : ℕ) (m : IdleExpiryMap K V) → IsWell m → Local now m (get_mut m key now).1
  unfolding get_mut
  get_mut-Local now m w =
      let m' = cleanup_if_due m now in
      Local-trans now now m m' (get_mut m key now).1 (omega arith) (cleanup_if_due-Local m now w)
        (get_entry-Local now m' (lookup key m'.entries) (cleanup_if_due-IsWell m now w))

  pub occupied_get-Local :
      (now : ℕ) (m : IdleExpiryMap K V) → IsWell m → Local now m (occupied_get m key now).1
  unfolding occupied_get
  occupied_get-Local now m w = elim (Option-cases (lookup key m.entries)) [
    | inl q ↦ ground (arith, Local-refl now m w)
    | inr (timed, q) ↦ ground (arith, Local-refl now m w, store-Local now m (touch now timed) w)
  ]

  pub write_through-Local :
      (now : ℕ) (m : IdleExpiryMap K V) (value : V)
      → IsWell m
      → Local now m (write_through m key value)
  unfolding write_through
  write_through-Local now m value w = elim (Option-cases (lookup key m.entries)) [
    | inl q ↦ ground (arith, Local-refl now m w)
    | inr (timed, q) ↦ ground (arith, store-Local now m (record timed { value = value }) w)
  ]

  pub take-Local : (now at : ℕ) (m : IdleExpiryMap K V) → IsWell m → Local now m (take m key at).1
  unfolding take
  take-Local now at m w =
      ground (arith, remove-Local now m (record m { entries = remove key m.entries }) w refl refl)

  pub occupied_destruct-Local :
      (now : ℕ) (m : IdleExpiryMap K V) → IsWell m → Local now m (occupied_destruct m key)
  unfolding occupied_destruct
  occupied_destruct-Local now m w = elim (Option-cases (lookup key m.entries)) [
    | inl q ↦ ground (arith, Local-refl now m w)
    | inr (timed, q) ↦
        ground (arith, remove-Local now m (expire_entry m key timed.value) w refl refl)
  ]

  pub occupied_insert-Local :
      (now at : ℕ) (m : IdleExpiryMap K V) (value : V)
      → IsWell m
      → Local now m (occupied_insert m key value at).1
  unfolding occupied_insert
  occupied_insert-Local now at m value w =
      store-Local now m (record { value = value; last_touched = at }) w

  pub vacant_insert-Local :
      (now at : ℕ) (m : IdleExpiryMap K V) (value : V)
      → IsWell m
      → Local now m (vacant_insert m key value at).1
  unfolding vacant_insert
  vacant_insert-Local now at m value w =
      store-Local now m (record { value = value; last_touched = at }) w

  pub Local-later :
      (now now' : ℕ) (m m' : IdleExpiryMap K V) → now ≤ now' → Local now m m' → Local now' m m'
  Local-later now now' m m' h p = record {
    well = p.well;
    same = λ j later d l. p.same j later d (omega arith);
  }

  pub entry_insert-Local :
      (now at : ℕ) (m : IdleExpiryMap K V) (slot : IdleEntry K) (value : V)
      → entry_key slot ≡ key
      → IsWell m
      → Local now m (entry_insert m slot value at).1
  unfolding entry_insert
  entry_insert-Local now at m (occupied k) value q w = rw q (occupied_insert-Local now at m value w)
  entry_insert-Local now at m (vacant k) value q w = rw q (vacant_insert-Local now at m value w)

  pub entry_key-entry : (m : IdleExpiryMap K V) (now : ℕ) → entry_key (entry m key now).0 ≡ key
  unfolding entry entry_at
  entry_key-entry m now = elim (Option-cases (lookup key (cleanup_if_due m now).entries)) [
    | inl q ↦ ground arith
    | inr (timed, q) ↦ ground arith
  ]
