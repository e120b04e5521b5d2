-- ===== src/P2p/Data/ScopedExpiryMap/Client.antt =====
-- What a client sees after each call of the map of scopes.
use fyles_release.Base.{
  ℕ, ◌+◌, ◌-◌, ◌&&◌, ◌≤◌, ◌<◌, ◌≡◌, inl, inr, refl, sym, ◌∙◌, ap, Bool, true, false, Option, none,
  some, List, ◌∷◌, if◌then◌else◌, ltb, Eq, arith, Option-cases, Bool-cases,
}
use fyles_release.Base.HashMap.{
  lookup, insert, retain_mut, kept_by, IsMap, lookup-insert, lookup-retain_mut, retain_mut-IsMap,
  insert-IsMap,
}
use fyles_release.P2p.Data.ScopedExpiryMap.{
  ScopedExpiryMap, ScopeQueue, touch, push_queue, clean, or_new, cleanup_if_due, push, get,
}
use fyles_release.P2p.Data.ScopedExpiryMap.View.{shown, shown-clean}
use fyles_release.P2p.Data.ScopedExpiryMap.Timely.{
  IsTimely, clean-IsTimely, push_queue-IsTimely, shown-push_queue, shown-or_new, IsTimely-later,
  or_new-IsTimely,
}

module _ {K V : Type 0} ⦃e : Eq K⦄ where
  -- The values that a scope shows at a time.
  abbrev pub view : ScopedExpiryMap K V → K → ℕ → List V
  view m scope now = shown now (lookup scope m.scopes)

  -- Scopes stand once, each is timely, and a scope is not idle before its entries expired. The times
  -- are set by `new`.
  pub record IsWell (at : ℕ) (m : ScopedExpiryMap K V) : Type 0 where
    pub is_map : IsMap m.scopes
    pub within : (k : K) (q : ScopeQueue V) → lookup k m.scopes ≡ some q → IsTimely at m.value_ttl q
    pub outlived : m.value_ttl ≤ m.scope_idle_ttl
    pub some_time : 0 < m.scope_idle_ttl

  module _ (m : ScopedExpiryMap K V) (at : ℕ) (well : IsWell at m) (now again : ℕ) where
    lookup-cleaned :
        (k : K)
        → lookup k (retain_mut (clean m.scope_idle_ttl now again) m.scopes)
          ≡ kept_by (clean m.scope_idle_ttl now again) (lookup k m.scopes)
    lookup-cleaned k = lookup-retain_mut (clean m.scope_idle_ttl now again) k m.scopes well.is_map

    cleaned-IsWell : IsWell at (record m {
      last_cleanup = now;
      scopes = retain_mut (clean m.scope_idle_ttl now again) m.scopes;
    })
    cleaned-IsWell = record {
      is_map = retain_mut-IsMap (clean m.scope_idle_ttl now again) m.scopes well.is_map;
      within = λ k q h.
          clean-IsTimely at m.scope_idle_ttl m.value_ttl now again (lookup k m.scopes) q
            (well.within k) (sym (lookup-cleaned k) ∙ h);
      outlived = well.outlived;
      some_time = well.some_time;
    }

    pub cleanup_if_due-IsWell : IsWell at (cleanup_if_due m now again)
    unfolding cleanup_if_due
    cleanup_if_due-IsWell =
        if_both (ltb (now - m.last_cleanup) m.cleanup_interval) well cleaned-IsWell
      where
        if_both :
            (b : Bool) {x y : ScopedExpiryMap K V}
            → IsWell at x
            → IsWell at y
            → IsWell at (if b then x else y)
        if_both true p q = p
        if_both false p q = q

    shown-cleaned :
        (later : ℕ) (o : Option (ScopeQueue V))
        → ((q : ScopeQueue V) → o ≡ some q → IsTimely at m.value_ttl q)
        → now ≤ again
        → again ≤ later
        → shown later (kept_by (clean m.scope_idle_ttl now again) o) ≡ shown later o
    shown-cleaned later none h l u = refl
    shown-cleaned later (some q) h l u =
        shown-clean m.scope_idle_ttl m.value_ttl now again later q (h q refl).1 well.outlived
          well.some_time l u

    -- Whether and when a cleanup runs cannot be seen after it.
    pub cleanup_if_due_unseen :
        (scope : K) (later : ℕ)
        → now ≤ again
        → again ≤ later
        → view (cleanup_if_due m now again) scope later ≡ view m scope later
    unfolding cleanup_if_due
    cleanup_if_due_unseen scope later l u =
        let cleaned =
          ap (λ o. shown later o) (lookup-cleaned scope)
          ∙ shown-cleaned later (lookup scope m.scopes) (well.within scope) l u in
        ground (arith, cleaned)

  idle_ttl-cleanup_if_due :
      (m : ScopedExpiryMap K V) (now again : ℕ)
      → (cleanup_if_due m now again).value_ttl ≡ m.value_ttl
  unfolding cleanup_if_due
  idle_ttl-cleanup_if_due m now again = ground arith

  -- A pushed value is shown first in its scope until it expires, and nothing else that is shown
  -- changes, from the end of the call on. The map is well formed, which includes that a scope is
  -- not idle before its entries expired.
  pub view-push :
      (m : ScopedExpiryMap K V) (at : ℕ) (scope j : K) (value : V) (now again later : ℕ)
      → IsWell at m
      → now ≤ again
      → again ≤ later
      → view (push m scope value now again) j later ≡ (
          if e.beq scope j && ltb later (now + m.value_ttl)
          then value ∷ view m j later
          else view m j later)
  unfolding push
  view-push m at scope j value now again later well l u =
      let m' = cleanup_if_due m now again in
      let q = or_new (lookup scope m'.scopes) now in
      ground (
        arith,
        lookup-insert scope j (push_queue q value m.value_ttl now) m'.scopes,
        shown-push_queue q value m.value_ttl now later,
        shown-or_new (lookup scope m'.scopes) now later,
        cleanup_if_due_unseen m at well now again j later l u,
        e.beq_iff scope j,
      )

  -- A look-up in a well-formed map, during which the clock stands, gives the values that the scope
  -- shows, the newest first, and what any scope shows afterwards is what it showed.
  pub view-get :
      (m : ScopedExpiryMap K V) (at : ℕ) (scope j : K) (now later : ℕ)
      → IsWell at m
      → now ≤ later
      → ((get m scope now now).0 ≡ view m scope now)
        × (view (get m scope now now).1 j later ≡ view m j later)
  unfolding get
  view-get m at scope j now later well u =
      let m' = cleanup_if_due m now now in
      let here = cleanup_if_due_unseen m at well now now scope now (omega arith) (omega arith) in
      let there = cleanup_if_due_unseen m at well now now j later (omega arith) u in
      elim (Option-cases (lookup scope m'.scopes)) [
        | inl f ↦ (ground (arith, f, here), ground (arith, f, there))
        | inr (q, f) ↦ (
          ground (arith, f, here),
          ground
              (arith, f, there, lookup-insert scope j (touch q now) m'.scopes, e.beq_iff scope j),
        )
      ]

  stored-IsWell :
      (m : ScopedExpiryMap K V) (at : ℕ) (scope : K) (q : ScopeQueue V) (now : ℕ)
      → IsWell at m
      → at ≤ now
      → IsTimely now m.value_ttl q
      → IsWell now (record m { scopes = insert scope q m.scopes })
  stored-IsWell m at scope q now well h t = record {
    is_map = insert-IsMap scope q m.scopes well.is_map;
    within = λ k q' f. elim (Bool-cases (e.beq scope k)) [
      | inl y ↦
          let same : q ≡ q' = ground (arith, y, f, lookup-insert scope k q m.scopes) in
          rw (← same) t
      | inr n ↦
          IsTimely-later at now m.value_ttl q'
            (well.within k q' (ground (arith, n, f, lookup-insert scope k q m.scopes))) h
    ];
    outlived = well.outlived;
    some_time = well.some_time;
  }

  -- A push keeps the map well formed, from its time on, if the clock does not go back: scopes stand
  -- once, none was touched later, and no entry outlives the last touch by more than its own time.
  pub push-IsWell :
      (m : ScopedExpiryMap K V) (at : ℕ) (scope : K) (value : V) (now again : ℕ)
      → IsWell at m
      → at ≤ now
      → IsWell now (push m scope value now again)
  unfolding push
  push-IsWell m at scope value now again well h =
      let m' = cleanup_if_due m now again in
      let well' = cleanup_if_due-IsWell m at well now again in
      let q = or_new (lookup scope m'.scopes) now in
      let t =
        push_queue-IsTimely now m'.value_ttl now q value
          (or_new-IsTimely at m'.value_ttl now (lookup scope m'.scopes) (well'.within scope) h)
          (omega arith) in
      stored-IsWell m' at scope (push_queue q value m.value_ttl now) now well' h
        (rw (idle_ttl-cleanup_if_due m now again) (rw (idle_ttl-cleanup_if_due m now again) at t))
