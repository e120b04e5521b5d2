-- ===== src/P2p/RequestRegistry/Timeouts.antt =====
-- Every run of the registry of request_registry.rs with its worker: no panic, and each timeout once.
use fyles_release.Base.{
  ℕ, ◌+◌, ◌≤◌, ◌<◌, ◌≡◌, ◌⊎◌, refl, ◌∙◌, ap, none, List, arith, nat_eq, inl, inr, dec_lt,
}
use fyles_release.Base.HashMap.{lookup, lookup-remove}
use fyles_release.P2p.RequestRegistry.{register, unregister, reset_timeout}
use fyles_release.P2p.RequestRegistry.Worker.{
  Worker, DelayQueue, Polled, command, closed, empty, Item,
}
use fyles_release.P2p.RequestRegistry.Expiry.{Lawful, InStep}
use fyles_release.P2p.RequestRegistry.Polling.{Received, Allowed}
use fyles_release.P2p.RequestRegistry.Reporting.{Reported, of_expired, of_nothing, of_end}
use fyles_release.P2p.RequestRegistry.System.{reports, IsOnce, Gone, Gone-later, Gone-Absent}

module _ {Q N : Type 0} (queue : DelayQueue Q) (law : Lawful queue) where
  -- The worker registered ids below `low` only, and those that timed out are not registered.
  pub record Settled (low : ℕ) (w : Worker Q N) (xs : List ℕ) : Type 0 where
    pub in_step : InStep queue law w
    pub beyond : (j : ℕ) → low ≤ j → lookup j w.register ≡ none
    pub gone : Gone w low xs
    pub once : IsOnce xs

  -- The bound after the first command.
  abbrev pub bound_after : ℕ → Polled N → ℕ
  bound_after low (command (register id node)) = id + 1
  bound_after low (command (unregister id)) = low
  bound_after low (command (reset_timeout id)) = low
  bound_after low closed = low
  bound_after low empty = low

  abbrev pub First : ℕ → Polled N → Type 0
  First low (command (register id node)) = low ≤ id
  First low (command (unregister id)) = Unit {0}
  First low (command (reset_timeout id)) = Unit {0}
  First low closed = Unit {0}
  First low empty = Unit {0}

  low-le-bound_after : (low : ℕ) (p : Polled N) → First low p → low ≤ bound_after low p
  low-le-bound_after low (command (register id node)) f = omega arith
  low-le-bound_after low (command (unregister id)) f = omega arith
  low-le-bound_after low (command (reset_timeout id)) f = omega arith
  low-le-bound_after low closed f = omega arith
  low-le-bound_after low empty f = omega arith

  pub First-Allowed :
      (low : ℕ) (w : Worker Q N) (p : Polled N)
      → ((j : ℕ) → low ≤ j → lookup j w.register ≡ none)
      → First low p
      → Allowed queue law w p
  First-Allowed low w (command (register id node)) b f = b id f
  First-Allowed low w (command (unregister id)) b f = tt
  First-Allowed low w (command (reset_timeout id)) b f = tt
  First-Allowed low w closed b f = tt
  First-Allowed low w empty b f = tt

  -- The first half of a poll registers nothing below the bound before, or from the one after on.
  Received-none :
      (low : ℕ) (w w1 : Worker Q N) (p : Polled N)
      → First low p
      → Received queue law w p w1
      → (j : ℕ) → (j < low) ⊎ (bound_after low p ≤ j)
      → lookup j w.register ≡ none
      → lookup j w1.register ≡ none
  Received-none low w w1 (command (register id node)) f r j h n = r j (ground (arith, h)) n
  Received-none low w w1 (command (unregister id)) f r j h n = r j refl n
  Received-none low w w1 (command (reset_timeout id)) f r j h n = r j refl n
  Received-none low w w1 closed f r j h n = ap (λ m. lookup j m) r ∙ n
  Received-none low w w1 empty f r j h n = ap (λ m. lookup j m) r ∙ n

  pub Received-Settled :
      (low : ℕ) (w w1 : Worker Q N) (p : Polled N) (xs : List ℕ)
      → Settled low w xs
      → First low p
      → Received queue law w p w1
      → InStep queue law w1
      → Settled (bound_after low p) w1 xs
  Received-Settled low w w1 p xs k f r i =
      let up = low-le-bound_after low p f in
      record {
        in_step = i;
        beyond = λ j l. Received-none low w w1 p f r j (inr l) (k.beyond j (omega arith));
        gone =
            Gone-later w w1 low (bound_after low p) xs up
              (λ j l n. Received-none low w w1 p f r j (inl l) n) k.gone;
        once = k.once;
      }

  same-Settled :
      (low : ℕ) (w1 w2 : Worker Q N) (xs : List ℕ)
      → Settled low w1 xs
      → w2.register ≡ w1.register
      → InStep queue law w2
      → Settled low w2 xs
  same-Settled low w1 w2 xs k q i = record {
    in_step = i;
    beyond = λ j l. ap (λ m. lookup j m) q ∙ k.beyond j l;
    gone = Gone-later w1 w2 low low xs (omega arith) (λ j l n. ap (λ m. lookup j m) q ∙ n) k.gone;
    once = k.once;
  }

  -- The second half reports an id that was not reported before.
  pub Reported-Settled :
      (low : ℕ) (w1 w2 : Worker Q N) (item : Item N) (xs : List ℕ)
      → Settled low w1 xs
      → Reported queue law w1 item w2
      → InStep queue law w2
      → Settled low w2 (reports item xs)
  Reported-Settled low w1 w2 item xs k (of_expired {id} {key} {node} f q) i =
      let left : (j : ℕ) → lookup j w1.register ≡ none → lookup j w2.register ≡ none =
        λ j n. ap (λ m. lookup j m) q ∙ ground (arith, lookup-remove id j w1.register, n) in
      let out : lookup id w2.register ≡ none =
        ap (λ m. lookup id m) q ∙ ground (arith, lookup-remove id id w1.register) in
      let small : id < low = elim (dec_lt id low) [
        | yes p ↦ p
        | no p ↦ absurd (ground (arith, f, k.beyond id (omega arith)))
      ] in
      record {
        in_step = i;
        beyond = λ j l. left j (k.beyond j l);
        gone = (small, out, Gone-later w1 w2 low low xs (omega arith) (λ j l n. left j n) k.gone);
        once = (Gone-Absent w1 low id key node xs f k.gone, k.once);
      }
  Reported-Settled low w1 w2 item xs k (of_nothing q) i = same-Settled low w1 w2 xs k q i
  Reported-Settled low w1 w2 item xs k (of_end q r) i = same-Settled low w1 w2 xs k q i
