-- ===== src/P2p/RequestRegistry/Examples.antt =====
-- The theorems of the request registry at concrete inputs. A queue is the list of its entries, and each
-- poll takes the first.
use fyles_release.Base.{
  ℕ, suc, ◌+◌, ◌≤◌, ◌≡◌, ◌≢◌, refl, true, Option, none, some, List, [], ◌∷◌, arith, nat_eq,
  if◌then◌else◌, ◌==◌,
}
use fyles_release.Base.HashMap.{HashMap, lookup, insert, remove, lookup-insert, lookup-remove}
use fyles_release.P2p.RequestRegistry.{Registry}
use fyles_release.P2p.RequestRegistry.{register_request_id}
use fyles_release.P2p.RequestRegistry.External.{IsIssued}
use fyles_release.P2p.RequestRegistry.Calls.{
  Call, register_id, register_with, remove_id, resend, update_id, run_call, run_call_lem, InOrder,
  IsNew,
}
use fyles_release.P2p.RequestRegistry.Worker.{
  Worker, DelayQueue, Expired, expired, drained, waiting, timed_out, report,
}
use fyles_release.P2p.RequestRegistry.Expiry.{Lawful, InStep}
use fyles_release.P2p.RequestRegistry.Reporting.{report_expired}
use fyles_release.P2p.RequestRegistry.System.{System, Event, call, poll, run, start, IsOnce}
use fyles_release.P2p.RequestRegistry.Runs.{run-IsOnce}

abbrev fresh_key : HashMap ℕ ℕ → ℕ
fresh_key [] = 0
fresh_key ((k, v) ∷ m) = suc (k + fresh_key m)

lookup-fresh_key : (m : HashMap ℕ ℕ) (j : ℕ) → fresh_key m ≤ j → lookup j m ≡ none
unfolding lookup
lookup-fresh_key [] j h = refl
lookup-fresh_key ((k, v) ∷ m) j h = ground (arith, lookup-fresh_key m j (omega arith))

abbrev if_present : HashMap ℕ ℕ → Option ℕ → HashMap ℕ ℕ → Option (HashMap ℕ ℕ)
if_present q none q' = none
if_present q (some v) q' = some q'

abbrev take_first : HashMap ℕ ℕ → Expired × HashMap ℕ ℕ
take_first [] = (drained, [])
take_first ((k, v) ∷ m) = (expired v, remove k ((k, v) ∷ m))

abbrev list_queue : DelayQueue (HashMap ℕ ℕ)
list_queue = record {
  insert = λ q v t. (fresh_key q, insert (fresh_key q) v q);
  remove = λ q k. if_present q (lookup k q) (remove k q);
  reset = λ q k t. if_present q (lookup k q) q;
  poll_expired = take_first;
}

take_first-held :
    (q : HashMap ℕ ℕ) (v : ℕ)
    → (take_first q).0 ≡ expired v
    → (k : ℕ) × (lookup k q ≡ some v)
      × ((j : ℕ) → lookup j (take_first q).1 ≡ (if k == j then none else lookup j q))
unfolding lookup
take_first-held [] v h = absurd (ground (arith, h))
take_first-held ((k, u) ∷ m) v h = (k, ground (arith, h), λ j. lookup-remove k j ((k, u) ∷ m))

list_queue-Lawful : Lawful list_queue
list_queue-Lawful = record {
  held = λ q k. lookup k q;
  insert_new = λ q v t. lookup-fresh_key q (fresh_key q) (omega arith);
  insert_held = λ q v t j. lookup-insert (fresh_key q) j v q;
  remove_held = λ q k v h. (remove k q, ground (arith, h), λ j. lookup-remove k j q);
  reset_held = λ q k v t h. (q, ground (arith, h), λ j. refl);
  expired_held = take_first-held;
  drained_held = λ q h j. take_first-drained q h j;
  waiting_held = λ q h j. absurd (take_first-waiting q h);
}
  where
    take_first-drained :
        (q : HashMap ℕ ℕ)
        → (take_first q).0 ≡ drained
        → (j : ℕ) → lookup j (take_first q).1 ≡ lookup j q
    take_first-drained [] h j = refl
    take_first-drained ((k, v) ∷ m) h j = absurd (ground (arith, h))

    take_first-waiting : (q : HashMap ℕ ℕ) → (take_first q).0 ≢ waiting
    take_first-waiting [] h = ground (arith, h)
    take_first-waiting ((k, v) ∷ m) h = ground (arith, h)

abbrev TestEvent : Type 0
TestEvent = Event ℕ ℕ ℕ ℕ ℕ

-- Two requests, one of which is answered before its timeout.
abbrev events : List TestEvent
events =
    call (register_id 70 5)
    ∷ call (register_with 1 71 6 none 9 true)
    ∷ poll
    ∷ call (resend 71)
    ∷ call (update_id 71 72)
    ∷ call (remove_id 72)
    ∷ poll
    ∷ poll
    ∷ poll
    ∷ []

abbrev from_start : System (HashMap ℕ ℕ) ℕ ℕ ℕ ℕ ℕ
from_start = start list_queue [] 30

run-IsOnce_example :
    (y : System (HashMap ℕ ℕ) ℕ ℕ ℕ ℕ ℕ) × (run list_queue from_start events ≡ some y)
    × IsOnce y.reported
    × IsIssued y.registry
    × InStep list_queue list_queue-Lawful y.worker
unfolding list_queue-Lawful lookup
run-IsOnce_example = run-IsOnce list_queue list_queue-Lawful [] 30 events (λ j. refl) (omega arith)

abbrev TestRegistry : Type 0
TestRegistry = Registry ℕ ℕ ℕ ℕ

abbrev two_requests : TestRegistry
two_requests = record {
  register =
      (70, record { external_id = 0; retry_count = 0; request_data = none })
      ∷ (
        71,
        record {
          external_id = 1;
          retry_count = 0;
          request_data =
              some (record { contact_id = none; request = 9; idempotent = true; session = 1 });
        },
      )
      ∷ [];
  next_external_request_id = 2;
}

two_requests-IsIssued : IsIssued two_requests
unfolding lookup
two_requests-IsIssued = record {
  given_out = λ id r h. ground (arith, h);
  one_request = λ id id' r r' h h' x. ground (arith, h, h', x);
}

abbrev third_request : Call ℕ ℕ ℕ ℕ ℕ
third_request = register_id 72 5

run_call_lem_example :
    IsIssued (run_call two_requests third_request).0
    × InOrder 2
        (run_call two_requests third_request).1
        (run_call two_requests third_request).0.next_external_request_id
    × ((run_call two_requests third_request).0.next_external_request_id ≤ 3)
    × IsNew two_requests (run_call two_requests third_request).0 (some (72, 2))
unfolding register_request_id
run_call_lem_example = run_call_lem two_requests third_request two_requests-IsIssued (omega arith)

-- The last call registers a request under an id that another one gave up.
abbrev several_calls : List (Call ℕ ℕ ℕ ℕ ℕ)
several_calls = third_request ∷ remove_id 70 ∷ update_id 71 80 ∷ register_id 71 6 ∷ []

abbrev one_waits : Worker (HashMap ℕ ℕ) ℕ
one_waits = record {
  register = (0, (4, 5)) ∷ [];
  timeouts = (4, 0) ∷ [];
  timeout = 30;
  receiving = true;
}

one_waits-InStep : InStep list_queue list_queue-Lawful one_waits
unfolding list_queue-Lawful lookup
one_waits-InStep = record {
  keyed = λ id key node h. ground (arith, h);
  known = λ key id h. (5, ground (arith, h));
}

report_expired_example :
    (key : ℕ) × (node : ℕ) × (lookup 0 one_waits.register ≡ some (key, node))
    × ((report list_queue one_waits).0 ≡ timed_out 0 node)
    × (lookup 0 (report list_queue one_waits).1.register ≡ none)
report_expired_example =
    report_expired list_queue list_queue-Lawful one_waits 0 one_waits-InStep refl
