-- ===== src/P2p/RequestRegistry/Expiry.antt =====
-- The worker's register against its queue of timeouts: they name the same requests.
use fyles_release.Base.{
  ℕ, ◌≡◌, sym, ◌∙◌, ap, Option, none, some, if◌then◌else◌, ◌==◌, arith, nat_eq, ℕ_discrete,
}
use fyles_release.Base.HashMap.{lookup, insert, remove, lookup-insert, lookup-remove}
use fyles_release.P2p.RequestRegistry.Worker.{Worker, DelayQueue, expired, drained, waiting}

-- What the worker relies on of the queue: which value each key holds.
pub record Lawful {Q : Type 0} (queue : DelayQueue Q) : Type 0 where
  pub held : Q → ℕ → Option ℕ
  pub insert_new : (q : Q) (v t : ℕ) → held q (queue.insert q v t).0 ≡ none
  pub insert_held :
      (q : Q) (v t j : ℕ)
      → held (queue.insert q v t).1 j ≡ (if (queue.insert q v t).0 == j then some v else held q j)
  pub remove_held :
      (q : Q) (k v : ℕ)
      → held q k ≡ some v
      → (q' : Q) × (queue.remove q k ≡ some q')
        × ((j : ℕ) → held q' j ≡ (if k == j then none else held q j))
  pub reset_held :
      (q : Q) (k v t : ℕ)
      → held q k ≡ some v
      → (q' : Q) × (queue.reset q k t ≡ some q') × ((j : ℕ) → held q' j ≡ held q j)
  pub expired_held :
      (q : Q) (v : ℕ)
      → (queue.poll_expired q).0 ≡ expired v
      → (k : ℕ) × (held q k ≡ some v)
        × ((j : ℕ) → held (queue.poll_expired q).1 j ≡ (if k == j then none else held q j))
  pub drained_held :
      (q : Q)
      → (queue.poll_expired q).0 ≡ drained
      → (j : ℕ) → held (queue.poll_expired q).1 j ≡ held q j
  pub waiting_held :
      (q : Q)
      → (queue.poll_expired q).0 ≡ waiting
      → (j : ℕ) → held (queue.poll_expired q).1 j ≡ held q j

module _ {Q N : Type 0} (queue : DelayQueue Q) (law : Lawful queue) where
  -- Each registered request has its timeout in the queue, and each timeout belongs to one.
  pub record InStep (w : Worker Q N) : Type 0 where
    pub keyed :
        (id key : ℕ) (node : N)
        → lookup id w.register ≡ some (key, node)
        → law.held w.timeouts key ≡ some id
    pub known :
        (key id : ℕ)
        → law.held w.timeouts key ≡ some id
        → (node : N) × (lookup id w.register ≡ some (key, node))

  -- The same timeouts in another queue.
  pub same-InStep :
      (w w' : Worker Q N)
      → InStep w
      → w'.register ≡ w.register
      → ((j : ℕ) → law.held w'.timeouts j ≡ law.held w.timeouts j)
      → InStep w'
  same-InStep w w' i q s = record {
    keyed = λ id key node h. s key ∙ i.keyed id key node (ap (λ m. lookup id m) (sym q) ∙ h);
    known = λ key id h.
        let (node, e) = i.known key id (sym (s key) ∙ h) in (node, ap (λ m. lookup id m) q ∙ e);
  }

  -- A request and its timeout are gone.
  pub gone-InStep :
      (w w' : Worker Q N) (id key : ℕ) (node : N)
      → InStep w
      → lookup id w.register ≡ some (key, node)
      → w'.register ≡ remove id w.register
      → ((j : ℕ) → law.held w'.timeouts j ≡ (if key == j then none else law.held w.timeouts j))
      → InStep w'
  gone-InStep w w' id key node i f q s = record {
    keyed = λ j k n h.
        ground (arith, lookup-remove id j w.register, q, s k, i.keyed j k n, i.keyed id key node f);
    known = λ k j h.
        let old : law.held w.timeouts k ≡ some j = ground (arith, s k, h) in
        let (n, e) = i.known k j old in
        (n, ground (arith, lookup-remove id j w.register, q, s k, h, e, f));
  }

  pub added-InStep :
      (w : Worker Q N) (id : ℕ) (node : N)
      → InStep w
      → lookup id w.register ≡ none
      → InStep (record w {
        timeouts = (queue.insert w.timeouts id w.timeout).1;
        register = insert id ((queue.insert w.timeouts id w.timeout).0, node) w.register;
      })
  added-InStep w id node i fresh =
      let key = (queue.insert w.timeouts id w.timeout).0 in
      let new_key = law.insert_new w.timeouts id w.timeout in
      record {
        keyed = λ j k n h. ground (
          arith,
          lookup-insert id j (key, node) w.register,
          law.insert_held w.timeouts id w.timeout k,
          i.keyed j k n,
          new_key,
        );
        known = λ k j h. added_known w id node k j i fresh h;
      }
    where
      added_known :
          (w : Worker Q N) (id : ℕ) (node : N) (k j : ℕ)
          → InStep w
          → lookup id w.register ≡ none
          → law.held (queue.insert w.timeouts id w.timeout).1 k ≡ some j
          → (n : N) × (lookup j
                (insert id ((queue.insert w.timeouts id w.timeout).0, node) w.register)
              ≡ some (k, n))
      added_known w id node k j i fresh h =
          let key = (queue.insert w.timeouts id w.timeout).0 in
          let put = lookup-insert id j (key, node) w.register in
          let after = law.insert_held w.timeouts id w.timeout k in
          elim (ℕ_discrete key k) [
            | yes q ↦ (node, ground (arith, put, after, h))
            | no d ↦
                let (n, e) = i.known k j (ground (arith, after, h)) in
                (n, ground (arith, put, e, fresh))
          ]
