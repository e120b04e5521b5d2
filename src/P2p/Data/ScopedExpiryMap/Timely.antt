-- ===== src/P2p/Data/ScopedExpiryMap/Timely.antt =====
-- One queue of a scope: how long its entries last, and what it shows after a push.
use mathlib.Core.List.{reverse-append}
use fyles_release.Base.{
  ℕ, ◌+◌, ◌≤◌, ◌≡◌, refl, ◌∙◌, ap, Option, none, some, [], ◌∷◌, if◌then◌else◌, ltb, retain, arith,
}
use fyles_release.Base.HashMap.{kept_by}
use fyles_release.P2p.Data.ScopedExpiryMap.{
  ScopeQueue, push_queue, is_valid, values, prune_expired, clean, or_new,
}
use fyles_release.P2p.Data.ScopedExpiryMap.View.{
  shown, Within, Within-later, Within-append, Within-retain,
}

-- A queue was touched by a time, and no entry outlives the last touch by more than its own time.
abbrev pub IsTimely : {V : Type 0} → ℕ → ℕ → ScopeQueue V → Type 0
IsTimely at ttl q = (q.last_touched ≤ at) × Within (q.last_touched + ttl) q.entries

pub clean-IsTimely :
    {V : Type 0} (at idle ttl now again : ℕ) (o : Option (ScopeQueue V)) (q : ScopeQueue V)
    → ((q' : ScopeQueue V) → o ≡ some q' → IsTimely at ttl q')
    → kept_by (clean idle now again) o ≡ some q
    → IsTimely at ttl q
clean-IsTimely at idle ttl now again none q h c = absurd (ground (arith, c))
clean-IsTimely at idle ttl now again (some q0) q h c =
    let pruned : prune_expired q0 now ≡ q = ground (arith, c) in
    rw (← pruned)
      ((h q0 refl).0, Within-retain (q0.last_touched + ttl) (is_valid now) q0.entries (h q0 refl).1)

pub push_queue-IsTimely :
    {V : Type 0} (at ttl now : ℕ) (q : ScopeQueue V) (value : V)
    → IsTimely at ttl q
    → at ≤ now
    → IsTimely now ttl (push_queue q value ttl now)
push_queue-IsTimely at ttl now q value (t, w) h = (
  omega arith,
  Within-append (now + ttl) q.entries (record { value = value; expires_at = now + ttl } ∷ [])
      (Within-later (q.last_touched + ttl) (now + ttl) q.entries (omega arith) w) (omega arith, tt),
)

-- A queue shows its newest value first, until that expires.
pub shown-push_queue :
    {V : Type 0} (q : ScopeQueue V) (value : V) (ttl now later : ℕ)
    → shown later (some (push_queue q value ttl now))
      ≡ (if ltb later (now + ttl) then value ∷ shown later (some q) else shown later (some q))
shown-push_queue q value ttl now later =
    ap (λ xs. values (retain (is_valid later) xs))
      (reverse-append q.entries (record { value = value; expires_at = now + ttl } ∷ []))
    ∙ ground arith

pub shown-or_new :
    {V : Type 0} (o : Option (ScopeQueue V)) (now later : ℕ)
    → shown later (some (or_new o now)) ≡ shown later o
shown-or_new none now later = refl
shown-or_new (some q) now later = refl

pub IsTimely-later :
    {V : Type 0} (at now ttl : ℕ) (q : ScopeQueue V)
    → IsTimely at ttl q
    → at ≤ now
    → IsTimely now ttl q
IsTimely-later at now ttl q (t, w) h = (omega arith, w)

pub or_new-IsTimely :
    {V : Type 0} (at ttl now : ℕ) (o : Option (ScopeQueue V))
    → ((q : ScopeQueue V) → o ≡ some q → IsTimely at ttl q)
    → at ≤ now
    → IsTimely now ttl (or_new o now)
or_new-IsTimely at ttl now none h l = (omega arith, tt)
or_new-IsTimely at ttl now (some q) h l = IsTimely-later at now ttl q (h q refl) l
