-- ===== src/P2p/Data/ScopedExpiryMap/View.antt =====
-- The values of a scope as a client sees them: those that did not expire, the newest first.
use fyles_release.Base.{
  ℕ, ◌+◌, ◌≤◌, ◌<◌, ◌≡◌, inl, inr, refl, sym, ◌∙◌, ap, Bool, true, Option, none, some, List, [],
  ◌∷◌, ◌++◌, retain, reverse, retain-reverse, retain-retain, arith, Bool-cases,
}
use fyles_release.P2p.Data.ScopedExpiryMap.{
  ScopeQueue, TimedValue, is_valid, values, valid_values_newest_first, prune_expired, is_idle,
  is_empty, no_entries, clean,
}

module _ {V : Type 0} where
  abbrev pub shown : ℕ → Option (ScopeQueue V) → List V
  shown now none = []
  shown now (some q) = valid_values_newest_first q now

  -- All entries expire by a time.
  abbrev pub Within : ℕ → List (TimedValue V) → Type 0
  Within bound [] = Unit {0}
  Within bound (x ∷ xs) = (x.expires_at ≤ bound) × Within bound xs

  pub Within-later : (b c : ℕ) (xs : List (TimedValue V)) → b ≤ c → Within b xs → Within c xs
  Within-later b c [] h w = tt
  Within-later b c (x ∷ xs) h (l, w) = (omega arith, Within-later b c xs h w)

  pub Within-append :
      (b : ℕ) (xs ys : List (TimedValue V)) → Within b xs → Within b ys → Within b (xs ++ ys)
  Within-append b [] ys w v = v
  Within-append b (x ∷ xs) ys (l, w) v = (l, Within-append b xs ys w v)

  pub Within-retain :
      (b : ℕ) (p : TimedValue V → Bool) (xs : List (TimedValue V))
      → Within b xs
      → Within b (retain p xs)
  Within-retain b p [] w = tt
  Within-retain b p (x ∷ xs) (l, w) = ground (arith, l, Within-retain b p xs w)

  retain-Within :
      (b now : ℕ) (xs : List (TimedValue V)) → Within b xs → b ≤ now → retain (is_valid now) xs ≡ []
  retain-Within b now [] w h = refl
  retain-Within b now (x ∷ xs) (l, w) h = ground (arith, l, retain-Within b now xs w h)

  valid_later :
      (now later : ℕ) (xs : List (TimedValue V))
      → now ≤ later
      → retain (is_valid later) (retain (is_valid now) xs) ≡ retain (is_valid later) xs
  valid_later now later xs h =
      retain-retain (is_valid now) (is_valid later) xs (λ x q. ground (arith, q))

  -- What is shown depends on the entries that are valid only.
  pub shown-congr :
      (now : ℕ) (q q' : ScopeQueue V)
      → retain (is_valid now) q.entries ≡ retain (is_valid now) q'.entries
      → shown now (some q) ≡ shown now (some q')
  shown-congr now q q' h = ap values (
      retain-reverse (is_valid now) q.entries
      ∙ ap reverse h
      ∙ sym (retain-reverse (is_valid now) q'.entries))

  shown-empty :
      (now : ℕ) (q : ScopeQueue V) → retain (is_valid now) q.entries ≡ [] → shown now (some q) ≡ []
  shown-empty now q h = ap values (retain-reverse (is_valid now) q.entries ∙ ap reverse h)

  no_entries-eq : (xs : List (TimedValue V)) → no_entries xs ≡ true → xs ≡ []
  no_entries-eq [] h = refl
  no_entries-eq (x ∷ xs) h = absurd (ground (arith, h))

  -- A queue that a cleanup changes or drops shows the same afterwards.
  pub shown-clean :
      (idle ttl now again later : ℕ) (q : ScopeQueue V)
      → Within (q.last_touched + ttl) q.entries
      → ttl ≤ idle
      → 0 < idle
      → now ≤ again
      → again ≤ later
      → shown later (clean idle now again q) ≡ shown later (some q)
  shown-clean idle ttl now again later q w t z h l = elim (Bool-cases (is_idle q idle now)) [
    | inl i ↦
        let gone : retain (is_valid later) q.entries ≡ [] =
          retain-Within (q.last_touched + ttl) later q.entries w (ground (arith, i)) in
        rw i (sym (shown-empty later q gone))
    | inr i ↦ elim (Bool-cases (is_empty (prune_expired q now) again)) [
      | inl n ↦
          let gone : retain (is_valid later) q.entries ≡ [] =
            sym (valid_later now later q.entries (omega arith))
            ∙ sym (valid_later again later (retain (is_valid now) q.entries) l)
            ∙ ap (λ xs. retain (is_valid later) xs)
                (no_entries-eq (retain (is_valid again) (retain (is_valid now) q.entries)) n) in
          rw (i, n) (sym (shown-empty later q gone))
      | inr n ↦
          rw (i, n)
            (shown-congr later (prune_expired q now) q
              (valid_later now later q.entries (omega arith)))
    ]
  ]
