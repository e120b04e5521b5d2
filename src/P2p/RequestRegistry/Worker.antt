-- ===== src/P2p/RequestRegistry/Worker.antt =====
-- fyles_service/p2p/src/send_receive_traits/request_registry.rs: `TimeoutRequestRegistryWorker`, which
-- reports the requests that timed out. The queue of the timeouts is tokio's: a parameter.
use fyles_release.Base.{ℕ, Bool, true, false, Option, none, some, [], if◌then◌else◌, nat_eq}
use fyles_release.Base.HashMap.{HashMap, lookup, insert, remove}
use fyles_release.P2p.RequestRegistry.{Command, register, unregister, reset_timeout}

-- `poll_expired`: an entry that expired, no entry at all, or none that expired yet.
pub data Expired : Type 0 where
  expired : ℕ → Expired
  drained waiting : Expired

-- `DelayQueue`: `insert` with a timeout gives a key; `remove` and `reset` panic on an unknown key,
-- which is `none`.
pub record DelayQueue (Q : Type 0) : Type 0 where
  pub insert : Q → ℕ → ℕ → ℕ × Q
  pub remove : Q → ℕ → Option Q
  pub reset : Q → ℕ → ℕ → Option Q
  pub poll_expired : Q → Expired × Q

pub record Worker (Q N : Type 0) : Type 0 where
  pub register : HashMap ℕ (ℕ × N)
  pub timeouts : Q
  pub timeout : ℕ
  pub receiving : Bool

-- What the channel gives: a command, its end, or nothing yet.
pub data Polled (N : Type 0) : Type 0 where
  command : Command N → Polled N
  closed empty : Polled N

pub data Item (N : Type 0) : Type 0 where
  timed_out : ℕ → N → Item N
  ended pending : Item N

module _ {Q N : Type 0} (queue : DelayQueue Q) where
  unfoldable pub handle_command : Worker Q N → Command N → Option (Worker Q N)
  handle_command w (register id node) =
      let (key, q) = queue.insert w.timeouts id w.timeout in
      some (record w { timeouts = q; register = insert id (key, node) w.register })
  handle_command w (unregister id) =
      let m = remove id w.register in
      elim (lookup id w.register) [
        | none ↦ some (record w { register = m })
        | some (key, node) ↦ elim (queue.remove w.timeouts key) [
          | none ↦ none
          | some q ↦ some (record w { timeouts = q; register = m })
        ]
      ]
  handle_command w (reset_timeout id) = elim (lookup id w.register) [
    | none ↦ some w
    | some (key, node) ↦ elim (queue.reset w.timeouts key w.timeout) [
      | none ↦ none
      | some q ↦ some (record w { timeouts = q })
    ]
  ]

  -- The first half of `poll_next`.
  unfoldable pub receive : Worker Q N → Polled N → Option (Worker Q N)
  receive w polled =
      if w.receiving
      then (elim polled [
        | command c ↦ handle_command w c
        | closed ↦ some (record w { receiving = false })
        | empty ↦ some w
      ])
      else some w

  -- The second half. An id that expired and is not registered is only logged.
  unfoldable pub report : Worker Q N → Item N × Worker Q N
  report w =
      let (res, q) = queue.poll_expired w.timeouts in
      let w' = record w { timeouts = q } in
      elim res [
        | waiting ↦ (pending, w')
        | drained ↦ if w.receiving then (pending, w') else (ended, w')
        | expired id ↦ elim (lookup id w.register) [
          | none ↦ (pending, record w' { register = remove id w.register })
          | some (key, node) ↦ (timed_out id node, record w' { register = remove id w.register })
        ]
      ]

  -- `none` is a panic of the queue.
  unfoldable pub poll_next : Worker Q N → Polled N → Option (Item N × Worker Q N)
  poll_next w polled = elim (receive w polled) [ none ↦ none | some w' ↦ some (report w') ]

  -- `new`, with an empty queue.
  unfoldable pub new_worker : Q → ℕ → Worker Q N
  new_worker q timeout = record { register = []; timeouts = q; timeout = timeout; receiving = true }
