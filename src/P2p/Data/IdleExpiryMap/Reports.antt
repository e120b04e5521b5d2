-- ===== src/P2p/Data/IdleExpiryMap/Reports.antt =====
-- IdleExpiryMap::cleanup_if_due: what a client sees of a cleanup, and what `on_expire` gets.
use fyles_release.Base.{
  ℕ, ◌+◌, ◌-◌, ◌≤◌, ◌≡◌, ◌⊎◌, refl, Bool, true, not, Bool-cases, inl, inr, List, [], ◌∷◌, ◌++◌,
  if◌then◌else◌, ltb, arith, Eq,
}
use fyles_release.Base.HashMap.{HashMap, retain_values}
use fyles_release.P2p.Data.IdleExpiryMap.{
  TimedEntry, IdleExpiryMap, is_expired, extracted, cleanup_if_due,
}
use fyles_release.P2p.Data.IdleExpiryMap.View.{view, IsWell, view-cleanup_if_due}

module _ {V : Type 0} (test : V → Bool) where
  abbrev pub counted : V → ℕ
  counted v = if test v then 1 else 0

  -- How many values pass a test.
  abbrev pub count : List V → ℕ
  count [] = 0
  count (v ∷ vs) = counted v + count vs

  abbrev pub count_entries : {K : Type 0} → HashMap K (TimedEntry V) → ℕ
  count_entries [] = 0
  count_entries ((k, entry) ∷ m) = counted entry.value + count_entries m

  -- How many the map holds, and how many were given to `on_expire`.
  abbrev pub count_all : {K : Type 0} → IdleExpiryMap K V → ℕ
  count_all m = count_entries m.entries + count m.expired

  count-append : (vs ws : List V) → count (vs ++ ws) ≡ count vs + count ws
  count-append [] ws = omega arith
  count-append (v ∷ vs) ws = omega (arith, count-append vs ws)

  -- What is kept and what is taken out, by any test of the entries.
  count-retain_values :
      {K : Type 0} ⦃e : Eq K⦄ (p : TimedEntry V → Bool) (m : HashMap K (TimedEntry V))
      → count_entries (retain_values (λ v. not (p v)) m) + count (extracted p m) ≡ count_entries m
  unfolding retain_values extracted
  count-retain_values p [] = refl
  count-retain_values p ((k, entry) ∷ m) = elim (Bool-cases (p entry)) [
    | inl q ↦ rw q (omega (arith, count-retain_values p m))
    | inr q ↦ rw q (omega (arith, count-retain_values p m))
  ]

module _ {K V : Type 0} ⦃e : Eq K⦄ where
  extracted-retain_values :
      (p : TimedEntry V → Bool) (m : HashMap K (TimedEntry V))
      → extracted p (retain_values (λ v. not (p v)) m) ≡ []
  unfolding retain_values extracted
  extracted-retain_values p [] = refl
  extracted-retain_values p ((k, entry) ∷ m) = elim (Bool-cases (p entry)) [
    | inl q ↦ rw q (extracted-retain_values p m)
    | inr q ↦ rw (q, q) (extracted-retain_values p m)
  ]

  nothing_expired :
      (m : IdleExpiryMap K V) (now : ℕ)
      → (ltb (now - m.last_cleanup) m.cleanup_interval ≡ true)
        ⊎ (extracted (is_expired m.idle_ttl now) (cleanup_if_due m now).entries ≡ [])
  unfolding cleanup_if_due
  nothing_expired m now = elim (Bool-cases (ltb (now - m.last_cleanup) m.cleanup_interval)) [
    | inl soon ↦ inl soon
    | inr due ↦ inr (rw due (extracted-retain_values (is_expired m.idle_ttl now) m.entries))
  ]

  count_all-cleanup_if_due :
      (test : V → Bool) (m : IdleExpiryMap K V) (now : ℕ)
      → count_all test (cleanup_if_due m now) ≡ count_all test m
  unfolding cleanup_if_due
  count_all-cleanup_if_due test m now =
      elim (Bool-cases (ltb (now - m.last_cleanup) m.cleanup_interval)) [
        | inl soon ↦ rw soon refl
        | inr due ↦
            let appended =
              count-append test m.expired (extracted (is_expired m.idle_ttl now) m.entries) in
            let split = count-retain_values test (is_expired m.idle_ttl now) m.entries in
            rw (due, appended) (omega (arith, split))
      ]

  -- In a well-formed map, a cleanup does not change what a key shows from that time on; by any test
  -- of the values, the map holds and on_expire got as many of them together as before, so that what
  -- a cleanup takes out is reported once each and nothing else is; and after a cleanup that was due
  -- no entry is expired.
  pub cleanup_if_due_lem :
      (m : IdleExpiryMap K V) (now later : ℕ) (key : K) (test : V → Bool)
      → IsWell m
      → now ≤ later
      → (view (cleanup_if_due m now) key later ≡ view m key later)
        × (count_all test (cleanup_if_due m now) ≡ count_all test m)
        × ((ltb (now - m.last_cleanup) m.cleanup_interval ≡ true)
            ⊎ (extracted (is_expired m.idle_ttl now) (cleanup_if_due m now).entries ≡ []))
  cleanup_if_due_lem m now later key test well h = (
    view-cleanup_if_due m now later key well h,
    count_all-cleanup_if_due test m now,
    nothing_expired m now,
  )
