-- ===== src/P2p/RequestRegistry/System.antt =====
-- The registry, the channel and the worker of request_registry.rs together: any calls of the registry
-- and any polls of the worker, in any order.
use fyles_release.Base.{
  ℕ, ◌+◌, ◌≤◌, ◌<◌, ◌≡◌, ◌≢◌, Option, none, some, List, [], ◌∷◌, ◌++◌, arith, Eq, nat_eq,
}
use fyles_release.Base.HashMap.{lookup}
use fyles_release.P2p.RequestRegistry.{Registry, Command, register, unregister, reset_timeout}
use fyles_release.P2p.RequestRegistry
use fyles_release.P2p.RequestRegistry.Calls.{Call, run_call, InOrder}
use fyles_release.P2p.RequestRegistry.Worker.{
  Worker, DelayQueue, Polled, command, empty, Item, timed_out, ended, pending, poll_next,
  new_worker,
}

-- The external ids that timed out are kept, the latest first.
pub record System (Q N K C R S : Type 0) : Type 0 where
  pub registry : Registry K C R S
  pub channel : List (Command N)
  pub worker : Worker Q N
  pub reported : List ℕ

pub data Event (N K C R S : Type 0) : Type 0 where
  call : Call N K C R S → Event N K C R S
  poll : Event N K C R S

abbrev pub front : {N : Type 0} → List (Command N) → Polled N
front [] = empty
front (c ∷ cs) = command c

abbrev pub rest_of : {N : Type 0} → List (Command N) → List (Command N)
rest_of [] = []
rest_of (c ∷ cs) = cs

abbrev pub reports : {N : Type 0} → Item N → List ℕ → List ℕ
reports (timed_out id node) xs = id ∷ xs
reports ended xs = xs
reports pending xs = xs

module _ {Q N K C R S : Type 0} ⦃e : Eq K⦄ ⦃s : Eq S⦄ (queue : DelayQueue Q) where
  abbrev pub called_system : System Q N K C R S → Call N K C R S → System Q N K C R S
  called_system y c = record y {
    registry = (run_call y.registry c).0;
    channel = y.channel ++ (run_call y.registry c).1;
  }

  abbrev pub polled_system : System Q N K C R S → Item N × Worker Q N → System Q N K C R S
  polled_system y r = record y {
    channel = rest_of y.channel;
    worker = r.1;
    reported = reports r.0 y.reported;
  }

  -- One event; `none` is a panic.
  unfoldable pub happen : System Q N K C R S → Event N K C R S → Option (System Q N K C R S)
  happen y (call c) = some (called_system y c)
  happen y poll = elim (poll_next queue y.worker (front y.channel)) [
    | none ↦ none
    | some r ↦ some (polled_system y r)
  ]

  unfoldable pub run : System Q N K C R S → List (Event N K C R S) → Option (System Q N K C R S)
  run y [] = some y
  run y (x ∷ xs) = elim (happen y x) [ none ↦ none | some y' ↦ run y' xs ]

  unfoldable pub start : Q → ℕ → System Q N K C R S
  start q timeout = record {
    registry = RequestRegistry.new;
    channel = [];
    worker = new_worker queue q timeout;
    reported = [];
  }

-- No number stands twice.
abbrev pub Absent : ℕ → List ℕ → Type 0
Absent x [] = Unit {0}
Absent x (y ∷ ys) = (x ≢ y) × Absent x ys

abbrev pub IsOnce : List ℕ → Type 0
IsOnce [] = Unit {0}
IsOnce (x ∷ xs) = Absent x xs × IsOnce xs

-- The ids are below a bound and not registered.
abbrev pub Gone : {Q N : Type 0} → Worker Q N → ℕ → List ℕ → Type 0
Gone w low [] = Unit {0}
Gone w low (x ∷ xs) = (x < low) × (lookup x w.register ≡ none) × Gone w low xs

pub Gone-later :
    {Q N : Type 0} (w w' : Worker Q N) (low low' : ℕ) (xs : List ℕ)
    → low ≤ low'
    → ((j : ℕ) → j < low → lookup j w.register ≡ none → lookup j w'.register ≡ none)
    → Gone w low xs
    → Gone w' low' xs
Gone-later w w' low low' [] l h g = tt
Gone-later w w' low low' (x ∷ xs) l h (b, n, g) =
    (omega arith, h x b n, Gone-later w w' low low' xs l h g)

pub Gone-Absent :
    {Q N : Type 0} (w : Worker Q N) (low id key : ℕ) (node : N) (xs : List ℕ)
    → lookup id w.register ≡ some (key, node)
    → Gone w low xs
    → Absent id xs
Gone-Absent w low id key node [] f g = tt
Gone-Absent w low id key node (x ∷ xs) f (b, n, g) =
    (λ q. ground (arith, q, f, n), Gone-Absent w low id key node xs f g)

pub InOrder-append :
    {N : Type 0} (low next next' : ℕ) (cs ds : List (Command N))
    → InOrder low cs next
    → InOrder next ds next'
    → InOrder low (cs ++ ds) next'
InOrder-append low next next' [] ds p q = InOrder-below low next next' ds p q
  where
    InOrder-below :
        {N : Type 0} (low next next' : ℕ) (ds : List (Command N))
        → low ≤ next
        → InOrder next ds next'
        → InOrder low ds next'
    InOrder-below low next next' [] p q = omega arith
    InOrder-below low next next' (register id node ∷ ds) p (l, q) = (omega arith, q)
    InOrder-below low next next' (unregister id ∷ ds) p q = InOrder-below low next next' ds p q
    InOrder-below low next next' (reset_timeout id ∷ ds) p q = InOrder-below low next next' ds p q
InOrder-append low next next' (register id node ∷ cs) ds (l, p) q =
    (l, InOrder-append (id + 1) next next' cs ds p q)
InOrder-append low next next' (unregister id ∷ cs) ds p q = InOrder-append low next next' cs ds p q
InOrder-append low next next' (reset_timeout id ∷ cs) ds p q =
    InOrder-append low next next' cs ds p q
