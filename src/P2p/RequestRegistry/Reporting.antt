-- ===== src/P2p/RequestRegistry/Reporting.antt =====
-- `TimeoutRequestRegistryWorker::poll_next`: what it reports as timed out.
use fyles_release.Base.{
  ℕ, ◌≡◌, refl, ◌∙◌, ap, Bool, true, false, none, some, if◌then◌else◌, arith, nat_eq,
}
use fyles_release.Base.HashMap.{lookup, remove, lookup-remove}
use fyles_release.P2p.RequestRegistry.Worker.{
  Worker, DelayQueue, Expired, expired, drained, waiting, Item, timed_out, ended, pending, report,
}
use fyles_release.P2p.RequestRegistry.Expiry.{Lawful, InStep, same-InStep, gone-InStep}

module _ {Q N : Type 0} (queue : DelayQueue Q) (law : Lawful queue) where
  -- What a report is: an expired request is always known, and is not registered any more.
  pub data Reported (w : Worker Q N) : Item N → Worker Q N → Type 0 where
    of_expired :
        {id key : ℕ} {node : N} {w' : Worker Q N}
        → lookup id w.register ≡ some (key, node)
        → w'.register ≡ remove id w.register
        → Reported w (timed_out id node) w'
    of_nothing : {w' : Worker Q N} → w'.register ≡ w.register → Reported w pending w'
    of_end :
        {w' : Worker Q N} → w'.register ≡ w.register → w.receiving ≡ false → Reported w ended w'

  abbrev polled : Worker Q N → Worker Q N
  polled w = record w { timeouts = (queue.poll_expired w.timeouts).1 }

  report-eq_waiting :
      (w : Worker Q N)
      → (queue.poll_expired w.timeouts).0 ≡ waiting
      → report queue w ≡ (pending, polled w)
  unfolding report
  report-eq_waiting w p = ground (arith, p)

  report-eq_drained :
      (w : Worker Q N)
      → (queue.poll_expired w.timeouts).0 ≡ drained
      → report queue w ≡ (if w.receiving then (pending, polled w) else (ended, polled w))
  unfolding report
  report-eq_drained w p = ground (arith, p)

  report-eq_expired :
      (w : Worker Q N) (id key : ℕ) (node : N)
      → (queue.poll_expired w.timeouts).0 ≡ expired id
      → lookup id w.register ≡ some (key, node)
      → report queue w ≡ (timed_out id node, record (polled w) { register = remove id w.register })
  unfolding report
  report-eq_expired w id key node p f = ground (arith, p, f)

  abbrev pub Right : Worker Q N → Item N × Worker Q N → Type 0
  Right w r = Reported w r.0 r.1 × InStep queue law r.1

  drained-Right :
      (w : Worker Q N) (b : Bool)
      → w.receiving ≡ b
      → InStep queue law (polled w)
      → Right w (if b then (pending, polled w) else (ended, polled w))
  drained-Right w true r same = (of_nothing refl, same)
  drained-Right w false r same = (of_end refl r, same)

  pub report_lem :
      (w : Worker Q N) (x : Expired)
      → InStep queue law w
      → (queue.poll_expired w.timeouts).0 ≡ x
      → Right w (report queue w)
  report_lem w waiting i p =
      rw (report-eq_waiting w p)
        (of_nothing refl, same-InStep queue law w (polled w) i refl (law.waiting_held w.timeouts p))
  report_lem w drained i p =
      let same = same-InStep queue law w (polled w) i refl (law.drained_held w.timeouts p) in
      rw (report-eq_drained w p) (drained-Right w w.receiving refl same)
  report_lem w (expired id) i p =
      let (key, h, left) = law.expired_held w.timeouts id p in
      let (node, f) = i.known key id h in
      let w' = record (polled w) { register = remove id w.register } in
      rw (report-eq_expired w id key node p f)
        (of_expired f refl, gone-InStep queue law w w' id key node i f refl left)

  -- For a worker whose register and queue name the same requests, a timeout that passed is always
  -- reported, for the node that registered it, and ends the registration.
  pub report_expired :
      (w : Worker Q N) (id : ℕ)
      → InStep queue law w
      → (queue.poll_expired w.timeouts).0 ≡ expired id
      → (key : ℕ) × (node : N) × (lookup id w.register ≡ some (key, node))
        × ((report queue w).0 ≡ timed_out id node)
        × (lookup id (report queue w).1.register ≡ none)
  report_expired w id i p =
      let (key, h, left) = law.expired_held w.timeouts id p in
      let (node, f) = i.known key id h in
      let eq = report-eq_expired w id key node p f in
      (
        key,
        node,
        f,
        ap (λ r. r.0) eq,
        ap (λ r. lookup id r.1.register) eq ∙ ground (arith, lookup-remove id id w.register),
      )
