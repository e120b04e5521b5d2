-- ===== src/P2p/Data/IdleExpiryMap/Access.antt =====
-- What an entry of the map shows of its own key, and what a look-up and a write through it leave.
use fyles_release.Base.{
  ℕ, ◌≤◌, ◌≡◌, refl, ◌∙◌, Option, none, some, arith, Eq, Option-cases, inl, inr,
}
use fyles_release.Base.HashMap.{lookup, lookup-insert, lookup-remove}
use fyles_release.P2p.Data.IdleExpiryMap.{TimedEntry, IdleExpiryMap, cleanup_if_due, write_through}
use fyles_release.P2p.Data.IdleExpiryMap.View.{live, view, IsWell, view-cleanup_if_due}
use fyles_release.P2p.Data.IdleExpiryMap.Entry.{occupied, vacant, entry, entry_at, occupied_get}

-- The value of an entry, with another in its place.
abbrev pub replaced : {V : Type 0} → V → Option V → Option V
replaced value none = none
replaced value (some old) = some value

module _ {K V : Type 0} ⦃e : Eq K⦄ where
  view-entry_at :
      (m : IdleExpiryMap K V) (key j : K) (now later : ℕ) (o : Option (TimedEntry V))
      → now ≤ later
      → lookup key m.entries ≡ o
      → view (entry_at m key now o).1 j later ≡ view m j later
  unfolding entry_at
  view-entry_at m key j now later none h q = refl
  view-entry_at m key j now later (some timed) h q =
      ground (arith, lookup-remove key j m.entries, e.beq_iff key j)

  entry_at-occupied :
      (m : IdleExpiryMap K V) (key : K) (now : ℕ) (o : Option (TimedEntry V))
      → (entry_at m key now o).0
        ≡ (elim (live m.idle_ttl now o) [ none ↦ vacant key | some value ↦ occupied key ])
  unfolding entry_at
  entry_at-occupied m key now none = refl
  entry_at-occupied m key now (some timed) = ground arith

  ttl-cleanup_if_due :
      (m : IdleExpiryMap K V) (now : ℕ) → (cleanup_if_due m now).idle_ttl ≡ m.idle_ttl
  unfolding cleanup_if_due
  ttl-cleanup_if_due m now = ground arith

  ttl-entry_at :
      (m : IdleExpiryMap K V) (key : K) (now : ℕ) (o : Option (TimedEntry V))
      → (entry_at m key now o).1.idle_ttl ≡ m.idle_ttl
  unfolding entry_at
  ttl-entry_at m key now none = refl
  ttl-entry_at m key now (some timed) = ground arith

  -- To look an entry up changes nothing that can be seen, and the entry is occupied if the key has a
  -- value now.
  pub view-entry :
      (m : IdleExpiryMap K V) (key j : K) (now later : ℕ)
      → IsWell m
      → now ≤ later
      → view (entry m key now).1 j later ≡ view m j later
  unfolding entry
  view-entry m key j now later w h =
      let m' = cleanup_if_due m now in
      view-entry_at m' key j now later (lookup key m'.entries) h refl
      ∙ view-cleanup_if_due m now later j w h

  pub entry-occupied :
      (m : IdleExpiryMap K V) (key : K) (now : ℕ) (value : V)
      → IsWell m
      → view m key now ≡ some value
      → (entry m key now).0 ≡ occupied key
  unfolding entry
  entry-occupied m key now value w h =
      let m' = cleanup_if_due m now in
      entry_at-occupied m' key now (lookup key m'.entries)
      ∙ rw (view-cleanup_if_due m now now key w (omega arith) ∙ h)

  pub idle_ttl-entry :
      (m : IdleExpiryMap K V) (key : K) (now : ℕ) → (entry m key now).1.idle_ttl ≡ m.idle_ttl
  unfolding entry
  idle_ttl-entry m key now =
      let m' = cleanup_if_due m now in
      ttl-entry_at m' key now (lookup key m'.entries) ∙ ttl-cleanup_if_due m now

  pub occupied_get-view :
      (m : IdleExpiryMap K V) (key : K) (now : ℕ) → (occupied_get m key now).0 ≡ view m key now
  unfolding occupied_get
  occupied_get-view m key now = ground arith

  -- A write through a reference gives the key that value for as long as it had the old one.
  pub view-write_through :
      (m : IdleExpiryMap K V) (key : K) (value : V) (later : ℕ)
      → view (write_through m key value) key later ≡ replaced value (view m key later)
  unfolding write_through
  view-write_through m key value later = elim (Option-cases (lookup key m.entries)) [
    | inl q ↦ ground (arith, q)
    | inr (timed, q) ↦ ground (
      arith,
      q,
      e.beq_iff key key,
      lookup-insert key key (record timed { value = value }) m.entries,
    )
  ]
