-- ===== src/P2p/Data/Examples.antt =====
-- The theorems of the expiring maps at concrete inputs.
use fyles_release.Base.{ℕ, ◌⊎◌, true, ltb, ◌==◌, ◌≡◌, refl, some, [], ◌∷◌, arith, nat_eq}
use fyles_release.Base.HashMap.{lookup}
use fyles_release.P2p.Data.IdleExpiryMap.{IdleExpiryMap, is_expired, extracted, cleanup_if_due}
use fyles_release.P2p.Data.IdleExpiryMap.View.{view, IsWell}
use fyles_release.P2p.Data.IdleExpiryMap.Reports.{count_all, cleanup_if_due_lem}
use fyles_release.P2p.Data.ScopedExpiryMap.{ScopedExpiryMap, ScopeQueue, TimedValue, push, get}
use fyles_release.P2p.Data.ScopedExpiryMap
use fyles_release.P2p.Data.ScopedExpiryMap.Client
use fyles_release.P2p.Data.ScopedExpiryMap.Timely.{IsTimely}
use fyles_release.P2p.Data.ScopedExpiryMap.Client.{
  view-push, view-get, cleanup_if_due_unseen, push-IsWell,
}

-- Key 1 was touched at 10 and key 2 at 40; an entry lasts 30.
abbrev two_entries : IdleExpiryMap ℕ ℕ
two_entries = record {
  entries =
      (1, record { value = 11; last_touched = 10 })
      ∷ (2, record { value = 22; last_touched = 40 })
      ∷ [];
  idle_ttl = 30;
  cleanup_interval = 5;
  last_cleanup = 40;
  expired = [];
}

two_entries-IsWell : IsWell two_entries
unfolding lookup
two_entries-IsWell = (refl, (refl, tt))

-- Key 1 is cleaned up and reported.
cleanup_if_due_lem_example :
    (view (cleanup_if_due two_entries 50) 2 60 ≡ view two_entries 2 60)
    × (count_all (λ v. v == 11) (cleanup_if_due two_entries 50) ≡ 1)
    × ((ltb 10 5 ≡ true)
        ⊎ (extracted (is_expired 30 50) (cleanup_if_due two_entries 50).entries ≡ []))
cleanup_if_due_lem_example =
    cleanup_if_due_lem two_entries 50 60 2 (λ v. v == 11) two_entries-IsWell (omega arith)

-- Scope 1 holds a value that expires at 25, and one that expires at 40.
abbrev one_scope : ScopedExpiryMap ℕ ℕ
one_scope = record {
  scopes =
      (
        1,
        record {
          entries =
              record { value = 11; expires_at = 25 } ∷ record { value = 12; expires_at = 40 } ∷ [];
          last_touched = 25;
        },
      )
      ∷ [];
  last_cleanup = 0;
  scope_idle_ttl = 15;
  value_ttl = 15;
  cleanup_interval = 20;
}

one_scope-IsWell : Client.IsWell 25 one_scope
unfolding lookup
one_scope-IsWell = record {
  is_map = (refl, tt);
  within = λ k q h. one_queue k q h;
  outlived = omega arith;
  some_time = omega arith;
}
  where
    one_queue : (k : ℕ) (q : ScopeQueue ℕ) → lookup k one_scope.scopes ≡ some q → IsTimely 25 15 q
    one_queue k q h =
        let same : record {
          entries =
              record { value = 11; expires_at = 25 } ∷ record { value = 12; expires_at = 40 } ∷ [];
          last_touched = 25;
        }
            ≡ q =
          ground (arith, h) in
        rw (← same) (omega arith, (omega arith, (omega arith, tt)))

view-push_example : Client.view (push one_scope 1 13 30 31) 1 35 ≡ 13 ∷ 12 ∷ []
unfolding lookup
view-push_example =
    view-push one_scope 25 1 1 13 30 31 35 one_scope-IsWell (omega arith) (omega arith)

cleanup_if_due_unseen_example :
    Client.view (ScopedExpiryMap.cleanup_if_due one_scope 30 30) 1 35 ≡ Client.view one_scope 1 35
cleanup_if_due_unseen_example =
    cleanup_if_due_unseen one_scope 25 one_scope-IsWell 30 30 1 35 (omega arith) (omega arith)

push-IsWell_example : Client.IsWell 30 (push one_scope 1 13 30 31)
push-IsWell_example = push-IsWell one_scope 25 1 13 30 31 one_scope-IsWell (omega arith)
