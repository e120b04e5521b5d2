-- ===== src/P2p/RequestRegistry/Polling.antt =====
-- `TimeoutRequestRegistryWorker::poll_next`: it does not panic, and reports what it knows.
use fyles_release.Base.{
  ℕ, ◌≡◌, refl, Bool, false, none, some, ◌==◌, arith, nat_eq, Option-cases, Bool-cases, inl, inr,
}
use fyles_release.Base.HashMap.{lookup, remove, lookup-insert, lookup-remove}
use fyles_release.P2p.RequestRegistry.{Command, register, unregister, reset_timeout}
use fyles_release.P2p.RequestRegistry.Worker.{
  Worker, DelayQueue, Polled, command, closed, empty, handle_command, receive, report, poll_next,
}
use fyles_release.P2p.RequestRegistry.Expiry.{
  Lawful, InStep, same-InStep, gone-InStep, added-InStep,
}
use fyles_release.P2p.RequestRegistry.Reporting.{Right, report_lem}

-- A command that registers a request names one that is not registered.
abbrev pub IsFresh : {Q N : Type 0} → Worker Q N → Command N → Type 0
IsFresh w (register id node) = lookup id w.register ≡ none
IsFresh w (unregister id) = Unit {0}
IsFresh w (reset_timeout id) = Unit {0}

-- Whether a command registers an id.
abbrev pub adds : {N : Type 0} → Command N → ℕ → Bool
adds (register id node) j = id == j
adds (unregister id) j = false
adds (reset_timeout id) j = false

module _ {Q N : Type 0} (queue : DelayQueue Q) (law : Lawful queue) where
  -- What a handled command leaves: no id is registered but the one that it names.
  pub record Handled (w w' : Worker Q N) (c : Command N) : Type 0 where
    pub in_step : InStep queue law w'
    pub others :
        (j : ℕ) → adds c j ≡ false → lookup j w.register ≡ none → lookup j w'.register ≡ none

  handle_unregister :
      (w : Worker Q N) (id key : ℕ) (node : N)
      → InStep queue law w
      → lookup id w.register ≡ some (key, node)
      → (w' : Worker Q N) × (handle_command queue w (unregister id) ≡ some w')
        × Handled w w' (unregister id)
  unfolding handle_command
  handle_unregister w id key node i f =
      let (q, e, h) = law.remove_held w.timeouts key id (i.keyed id key node f) in
      let w' : Worker Q N = record w { timeouts = q; register = remove id w.register } in
      (
        w',
        ground (arith, f, e),
        record {
          in_step = gone-InStep queue law w w' id key node i f refl h;
          others = λ j d h. ground (arith, lookup-remove id j w.register);
        },
      )

  handle_reset :
      (w : Worker Q N) (id key : ℕ) (node : N)
      → InStep queue law w
      → lookup id w.register ≡ some (key, node)
      → (w' : Worker Q N) × (handle_command queue w (reset_timeout id) ≡ some w')
        × Handled w w' (reset_timeout id)
  unfolding handle_command
  handle_reset w id key node i f =
      let (q, e, h) = law.reset_held w.timeouts key id w.timeout (i.keyed id key node f) in
      let w' : Worker Q N = record w { timeouts = q } in
      (
        w',
        ground (arith, f, e),
        record { in_step = same-InStep queue law w w' i refl h; others = λ j d h. h },
      )

  pub handle_command_lem :
      (w : Worker Q N) (c : Command N)
      → InStep queue law w
      → IsFresh w c
      → (w' : Worker Q N) × (handle_command queue w c ≡ some w') × Handled w w' c
  unfolding handle_command
  handle_command_lem w (register id node) i fresh = (
    _,
    refl,
    record {
      in_step = added-InStep queue law w id node i fresh;
      others = λ j d h.
          ground
            (arith, lookup-insert id j ((queue.insert w.timeouts id w.timeout).0, node) w.register);
    },
  )
  handle_command_lem w (unregister id) i fresh = elim (Option-cases (lookup id w.register)) [
    | inl f ↦
        let w' : Worker Q N = record w { register = remove id w.register } in
        (
          w',
          ground (arith, f),
          record {
            in_step = record {
              keyed = λ j k n h. ground (arith, lookup-remove id j w.register, i.keyed j k n);
              known = λ k j h.
                  let (n, e) = i.known k j h in
                  (n, ground (arith, lookup-remove id j w.register, e, f));
            };
            others = λ j d h. ground (arith, lookup-remove id j w.register);
          },
        )
    | inr ((key, node), f) ↦ handle_unregister w id key node i f
  ]
  handle_command_lem w (reset_timeout id) i fresh = elim (Option-cases (lookup id w.register)) [
    | inl f ↦ (w, ground (arith, f), record { in_step = i; others = λ j d h. h })
    | inr ((key, node), f) ↦ handle_reset w id key node i f
  ]

  abbrev pub Allowed : Worker Q N → Polled N → Type 0
  Allowed w (command c) = IsFresh w c
  Allowed w closed = Unit {0}
  Allowed w empty = Unit {0}

  -- What the first half of a poll leaves.
  abbrev pub Received : Worker Q N → Polled N → Worker Q N → Type 0
  Received w (command c) w' =
      (j : ℕ) → adds c j ≡ false → lookup j w.register ≡ none → lookup j w'.register ≡ none
  Received w closed w' = w'.register ≡ w.register
  Received w empty w' = w'.register ≡ w.register

  receive_lem :
      (w : Worker Q N) (p : Polled N)
      → InStep queue law w
      → Allowed w p
      → (w' : Worker Q N) × (receive queue w p ≡ some w') × InStep queue law w' × Received w p w'
  unfolding receive
  receive_lem w (command c) i a = elim (Bool-cases w.receiving) [
    | inl r ↦
        let (w', e, h) = handle_command_lem w c i a in
        (w', ground (arith, r, e), h.in_step, h.others)
    | inr r ↦ (w, ground (arith, r), i, λ j d h. h)
  ]
  receive_lem w closed i a = elim (Bool-cases w.receiving) [
    | inl r ↦
        let w' = record w { receiving = false } in
        (w', ground (arith, r), same-InStep queue law w w' i refl (λ j. refl), refl)
    | inr r ↦ (w, ground (arith, r), i, refl)
  ]
  receive_lem w empty i a = (w, ground arith, i, refl)

  -- A poll never panics.
  pub poll_next_lem :
      (w : Worker Q N) (p : Polled N)
      → InStep queue law w
      → Allowed w p
      → (w1 : Worker Q N) × Received w p w1
        × InStep queue law w1
        × (poll_next queue w p ≡ some (report queue w1))
        × Right queue law w1 (report queue w1)
  unfolding poll_next
  poll_next_lem w p i a =
      let (w1, e, i1, r) = receive_lem w p i a in
      (
        w1,
        r,
        i1,
        ground (arith, e),
        report_lem queue law w1 (queue.poll_expired w1.timeouts).0 i1 refl,
      )
