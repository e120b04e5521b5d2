-- ===== src/P2p/Data/IdleExpiryMap/View.antt =====
-- The map as a client sees it: a key has a value until it was idle for `idle_ttl`.
use fyles_release.Base.{
  ℕ, ◌-◌, ◌≤◌, ◌≡◌, refl, ◌∙◌, Bool, true, false, not, Option, none, some, if◌then◌else◌, leb,
  arith, Eq,
}
use fyles_release.Base.HashMap.{
  lookup, keep_if, IsMap, lookup-insert, lookup-remove, lookup-retain_values, retain_values-IsMap,
}
use fyles_release.P2p.Data.IdleExpiryMap.{
  TimedEntry, IdleExpiryMap, is_expired, touch, cleanup_if_due, put, get_entry, get_mut, take,
}

if-congr :
    {A : Type 0} (b : Bool) {x y u v : A}
    → x ≡ u
    → y ≡ v
    → (if b then x else y) ≡ (if b then u else v)
if-congr true p q = p
if-congr false p q = q

module _ {V : Type 0} where
  -- What an entry is worth at a time.
  abbrev pub live : ℕ → ℕ → Option (TimedEntry V) → Option V
  live idle_ttl now none = none
  live idle_ttl now (some entry) = if is_expired idle_ttl now entry then none else some entry.value

  -- A value that is touched at a time, seen at a later one.
  abbrev pub until : ℕ → ℕ → ℕ → V → Option V
  until idle_ttl touched now value = if leb idle_ttl (now - touched) then none else some value

  -- What is worth nothing now is worth nothing later.
  live-keep_if :
      (idle_ttl now later : ℕ) (o : Option (TimedEntry V))
      → now ≤ later
      → live idle_ttl later (keep_if (λ v. not (is_expired idle_ttl now v)) o)
        ≡ live idle_ttl later o
  live-keep_if idle_ttl now later none h = refl
  live-keep_if idle_ttl now later (some entry) h = ground arith

module _ {K V : Type 0} ⦃e : Eq K⦄ where
  abbrev pub view : IdleExpiryMap K V → K → ℕ → Option V
  view m key now = live m.idle_ttl now (lookup key m.entries)

  abbrev pub IsWell : IdleExpiryMap K V → Type 0
  IsWell m = IsMap m.entries

  pub cleanup_if_due-IsWell :
      (m : IdleExpiryMap K V) (now : ℕ) → IsWell m → IsWell (cleanup_if_due m now)
  unfolding cleanup_if_due
  cleanup_if_due-IsWell m now w =
      ground (arith, retain_values-IsMap (λ v. not (is_expired m.idle_ttl now v)) m.entries w)

  idle_ttl-cleanup_if_due :
      (m : IdleExpiryMap K V) (now : ℕ) → (cleanup_if_due m now).idle_ttl ≡ m.idle_ttl
  unfolding cleanup_if_due
  idle_ttl-cleanup_if_due m now = ground arith

  -- Whether and when a cleanup runs cannot be seen from that time on.
  pub view-cleanup_if_due :
      (m : IdleExpiryMap K V) (now later : ℕ) (key : K)
      → IsWell m
      → now ≤ later
      → view (cleanup_if_due m now) key later ≡ view m key later
  unfolding cleanup_if_due
  view-cleanup_if_due m now later key w h = ground (
    arith,
    lookup-retain_values (λ v. not (is_expired m.idle_ttl now v)) key m.entries w,
    live-keep_if m.idle_ttl now later (lookup key m.entries) h,
  )

  -- What a look-up leaves of a key that it found, or did not find.
  abbrev pub touched : IdleExpiryMap K V → K → ℕ → ℕ → Option V → Option V
  touched m j now later none = view m j later
  touched m j now later (some value) = until m.idle_ttl now later value

  touched-congr :
      (m m' : IdleExpiryMap K V) (j : K) (now later : ℕ) (o o' : Option V)
      → view m j later ≡ view m' j later
      → m.idle_ttl ≡ m'.idle_ttl
      → o ≡ o'
      → touched m j now later o ≡ touched m' j now later o'
  touched-congr m m' j now later none o' v t q = rw (← q) v
  touched-congr m m' j now later (some value) o' v t q = rw (← q, t)

  view-get_entry :
      (m : IdleExpiryMap K V) (key j : K) (now later : ℕ) (o : Option (TimedEntry V))
      → lookup key m.entries ≡ o
      → ((get_entry m key now o).0 ≡ live m.idle_ttl now o)
        × (view (get_entry m key now o).1 j later ≡ (
            if e.beq key j then touched m j now later (live m.idle_ttl now o) else view m j later))
  unfolding get_entry
  view-get_entry m key j now later none q = (refl, ground arith)
  view-get_entry m key j now later (some entry) q =
      (ground arith, ground (arith, lookup-insert key j (touch now entry) m.entries))

  -- A look-up finds exactly the value that the key has now, and renews it: the value then lasts
  -- until it was idle for idle_ttl from now on. No other key changes.
  pub view-get_mut :
      (m : IdleExpiryMap K V) (key j : K) (now later : ℕ)
      → IsWell m
      → now ≤ later
      → ((get_mut m key now).0 ≡ view m key now)
        × (view (get_mut m key now).1 j later
            ≡ (if e.beq key j then touched m j now later (view m key now) else view m j later))
  unfolding get_mut
  view-get_mut m key j now later w h =
      let m' = cleanup_if_due m now in
      let (found, after) = view-get_entry m' key j now later (lookup key m'.entries) refl in
      let here = view-cleanup_if_due m now now key w (omega arith) in
      let there = view-cleanup_if_due m now later j w h in
      let ttl = idle_ttl-cleanup_if_due m now in
      (
        found ∙ here,
        after ∙ if-congr (e.beq key j) (touched-congr m' m j now later _ _ there ttl here) there,
      )

  -- After an insertion the key has the new value until it was idle for idle_ttl; no other key
  -- changes.
  pub view-put :
      (m : IdleExpiryMap K V) (key j : K) (value : V) (now later : ℕ)
      → IsWell m
      → now ≤ later
      → view (put m key value now).1 j later
        ≡ (if e.beq key j then until m.idle_ttl now later value else view m j later)
  unfolding put
  view-put m key j value now later w h =
      let m' = cleanup_if_due m now in
      let timed : TimedEntry V = record { value = value; last_touched = now } in
      ground (
        arith,
        lookup-insert key j timed m'.entries,
        view-cleanup_if_due m now later j w h,
        idle_ttl-cleanup_if_due m now,
      )

  -- A removal gives the value that the key has now, and leaves it none.
  pub view-take :
      (m : IdleExpiryMap K V) (key j : K) (now later : ℕ)
      → ((take m key now).0 ≡ view m key now)
        × (view (take m key now).1 j later ≡ (if e.beq key j then none else view m j later))
  unfolding take
  view-take m key j now later = (ground arith, ground (arith, lookup-remove key j m.entries))
