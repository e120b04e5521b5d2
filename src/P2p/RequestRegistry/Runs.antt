-- ===== src/P2p/RequestRegistry/Runs.antt =====
-- Runs of request_registry.rs: the registry, the channel and the worker keep in step.
use fyles_release.Base.{
  ℕ, ◌+◌, ◌≤◌, ◌<◌, ◌≡◌, refl, Option, none, some, List, [], ◌∷◌, arith, Eq, nat_eq, length,
}
use fyles_release.Base.HashMap.{lookup}
use fyles_release.P2p.Types.{u64_mod}
use fyles_release.P2p.RequestRegistry.{Registry, Command, register, unregister, reset_timeout}
use fyles_release.P2p.RequestRegistry
use fyles_release.P2p.RequestRegistry.External.{IsIssued}
use fyles_release.P2p.RequestRegistry.Calls.{Call, run_call, run_call_lem, InOrder}
use fyles_release.P2p.RequestRegistry.Worker.{
  Worker, DelayQueue, Item, poll_next, report, new_worker,
}
use fyles_release.P2p.RequestRegistry.Expiry.{Lawful, InStep}
use fyles_release.P2p.RequestRegistry.Polling.{poll_next_lem}
use fyles_release.P2p.RequestRegistry.System.{
  System, Event, call, poll, front, rest_of, happen, run, start, called_system, polled_system,
  IsOnce, InOrder-append,
}
use fyles_release.P2p.RequestRegistry.Timeouts.{
  Settled, First, First-Allowed, bound_after, Received-Settled, Reported-Settled,
}

module _ {Q N : Type 0} (queue : DelayQueue Q) (law : Lawful queue) where
  front-First :
      (low next : ℕ) (cs : List (Command N))
      → InOrder low cs next
      → First queue law low (front cs)
        × InOrder (bound_after queue law low (front cs)) (rest_of cs) next
  front-First low next [] o = (tt, o)
  front-First low next (register id node ∷ cs) o = (o.0, o.1)
  front-First low next (unregister id ∷ cs) o = (tt, o)
  front-First low next (reset_timeout id ∷ cs) o = (tt, o)

module _ {Q N K C R S : Type 0} ⦃e : Eq K⦄ ⦃s : Eq S⦄ (queue : DelayQueue Q)
    (law : Lawful queue) where
  -- The commands in the channel register new ids only, in order.
  pub record InTune (y : System Q N K C R S) : Type 0 where
    pub issued : IsIssued y.registry
    pub low : ℕ
    pub order : InOrder low y.channel y.registry.next_external_request_id
    pub settled : Settled queue law low y.worker y.reported

  call-InTune :
      (y : System Q N K C R S) (c : Call N K C R S)
      → InTune y
      → y.registry.next_external_request_id + 1 < u64_mod
      → InTune (called_system queue y c)
  call-InTune y c t l =
      let (i, o, n, issued) = run_call_lem y.registry c t.issued l in
      record {
        issued = i;
        low = t.low;
        order =
            InOrder-append t.low y.registry.next_external_request_id
              (run_call y.registry c).0.next_external_request_id y.channel (run_call y.registry c).1
              t.order o;
        settled = t.settled;
      }

  poll-InTune :
      (y : System Q N K C R S)
      → InTune y
      → (r : Item N × Worker Q N) × (poll_next queue y.worker (front y.channel) ≡ some r)
        × InTune (polled_system queue y r)
  poll-InTune y t =
      let p = front y.channel in
      let (f, o) =
        front-First queue law t.low y.registry.next_external_request_id y.channel t.order in
      let k = t.settled in
      let (w1, r, i1, eq, (rep, i2)) =
        poll_next_lem queue law y.worker p k.in_step
          (First-Allowed queue law t.low y.worker p k.beyond f) in
      (
        report queue w1,
        eq,
        record {
          issued = t.issued;
          low = bound_after queue law t.low p;
          order = o;
          settled =
              Reported-Settled queue law (bound_after queue law t.low p) w1 (report queue w1).1
                (report queue w1).0 y.reported
                (Received-Settled queue law t.low y.worker w1 p y.reported k f r i1) rep i2;
        },
      )

  abbrev Happened : System Q N K C R S → Option (System Q N K C R S) → Type 0
  Happened y o =
      (y' : System Q N K C R S) × (o ≡ some y')
      × InTune y'
      × (y'.registry.next_external_request_id ≤ y.registry.next_external_request_id + 1)

  happen_lem :
      (y : System Q N K C R S) (x : Event N K C R S)
      → InTune y
      → y.registry.next_external_request_id + 1 < u64_mod
      → Happened y (happen queue y x)
  unfolding happen
  happen_lem y (call c) t l =
      (called_system queue y c, refl, call-InTune y c t l, (run_call_lem y.registry c t.issued l).2)
  happen_lem y poll t l =
      let (r, eq, t') = poll-InTune y t in
      (polled_system queue y r, ground (arith, eq), t', omega arith)

  run_lem :
      (y : System Q N K C R S) (xs : List (Event N K C R S))
      → InTune y
      → y.registry.next_external_request_id + length xs < u64_mod
      → (y' : System Q N K C R S) × (run queue y xs ≡ some y') × InTune y'
  unfolding run
  run_lem y [] t l = (y, refl, t)
  run_lem y (x ∷ xs) t l =
      let (y1, eq, t1, n) = happen_lem y x t (omega arith) in
      let (y2, eq2, t2) = run_lem y1 xs t1 (omega arith) in (y2, ground (arith, eq, eq2), t2)

  start-InTune :
      (q : Q) (timeout : ℕ) → ((j : ℕ) → law.held q j ≡ none) → InTune (start queue q timeout)
  unfolding start new_worker RequestRegistry.new lookup
  start-InTune q timeout vacant = record {
    issued = record { given_out = λ id r h. cc; one_request = λ id id' r r' h h' x. cc };
    low = 0;
    order = omega arith;
    settled = record {
      in_step = record {
        keyed = λ id key node h. cc;
        known = λ key id h. absurd (ground (arith, vacant key, h));
      };
      beyond = λ j l. refl;
      gone = tt;
      once = tt;
    };
  }

  -- Over a queue of timeouts that keeps what is documented of it, from the start with an empty
  -- queue, no sequence of fewer than 2^64 calls of the registry and polls of the worker, in any
  -- order, panics, and the worker reports no external id twice as timed out. The ids in the
  -- registry stay distinct, and the worker's register and its queue name the same requests.
  pub run-IsOnce :
      (q : Q) (timeout : ℕ) (xs : List (Event N K C R S))
      → ((j : ℕ) → law.held q j ≡ none)
      → length xs < u64_mod
      → (y : System Q N K C R S) × (run queue (start queue q timeout) xs ≡ some y)
        × IsOnce y.reported
        × IsIssued y.registry
        × InStep queue law y.worker
  unfolding start RequestRegistry.new
  run-IsOnce q timeout xs vacant l =
      let (y, eq, t) =
        run_lem (start queue q timeout) xs (start-InTune q timeout vacant) (omega arith) in
      (y, eq, t.settled.once, t.issued, t.settled.in_step)
