-- ===== src/P2p/RequestRegistry/External.antt =====
-- The external ids of the registry: each stays with one request, and none is given out again.
use fyles_release.Base.{◌+◌, ◌<◌, ◌≡◌, some, arith, Eq}
use native.Mathlib.Nat.{mod-eq_of_lt}
use fyles_release.Base.HashMap.{lookup, insert, remove, lookup-insert, lookup-remove}
use fyles_release.P2p.Types.{u64_mod}
use fyles_release.P2p.RequestRegistry.{Registry, RegisteredRequest, registered}

module _ {K C R S : Type 0} ⦃e : Eq K⦄ where
  -- The external ids that were given out are below the next, and each belongs to one request.
  pub record IsIssued (m : Registry K C R S) : Type 0 where
    pub given_out :
        (id : K) (r : RegisteredRequest C R S)
        → lookup id m.register ≡ some r
        → r.external_id < m.next_external_request_id
    pub one_request :
        (id id' : K) (r r' : RegisteredRequest C R S)
        → lookup id m.register ≡ some r
        → lookup id' m.register ≡ some r'
        → r.external_id ≡ r'.external_id
        → id ≡ id'

  module _ (m : Registry K C R S) (i : IsIssued m) where
    pub registered-IsIssued :
        {N : Type 0} (id : K) (node : N) (r : RegisteredRequest C R S)
        → r.external_id ≡ m.next_external_request_id
        → m.next_external_request_id + 1 < u64_mod
        → IsIssued (registered m id node r).registry
    registered-IsIssued id node r q w = record {
      given_out =
          λ j s h. ground (arith, mod-eq_of_lt w, lookup-insert id j r m.register, i.given_out j s);
      one_request = λ j j' s s' h h' x. ground (
        arith,
        lookup-insert id j r m.register,
        lookup-insert id j' r m.register,
        i.given_out j s,
        i.given_out j' s',
        i.one_request j j' s s',
        e.beq_iff id j,
        e.beq_iff id j',
      );
    }

    pub removed-IsIssued : (id : K) → IsIssued (record m { register = remove id m.register })
    removed-IsIssued id = record {
      given_out = λ j s h. ground (arith, lookup-remove id j m.register, i.given_out j s);
      one_request = λ j j' s s' h h' x. ground (
        arith,
        lookup-remove id j m.register,
        lookup-remove id j' m.register,
        i.one_request j j' s s',
      );
    }

    -- A request in the place of one with the same external id.
    pub rewritten-IsIssued :
        (id : K) (r r' : RegisteredRequest C R S)
        → lookup id m.register ≡ some r
        → r'.external_id ≡ r.external_id
        → IsIssued (record m { register = insert id r' m.register })
    rewritten-IsIssued id r r' f q = record {
      given_out = λ j s h.
          ground (arith, lookup-insert id j r' m.register, i.given_out j s, i.given_out id r f);
      one_request = λ j j' s s' h h' x. ground (
        arith,
        lookup-insert id j r' m.register,
        lookup-insert id j' r' m.register,
        i.one_request j j' s s',
        i.one_request id j' r s' f,
        i.one_request id j r s f,
        e.beq_iff id j,
        e.beq_iff id j',
      );
    }

    pub moved-IsIssued :
        (old new_id : K) (r : RegisteredRequest C R S)
        → lookup old m.register ≡ some r
        → IsIssued (record m { register = insert new_id r (remove old m.register) })
    moved-IsIssued old new_id r f = record {
      given_out = λ j s h. ground (
        arith,
        lookup-insert new_id j r (remove old m.register),
        lookup-remove old j m.register,
        i.given_out j s,
        i.given_out old r f,
      );
      one_request = λ j j' s s' h h' x. ground (
        arith,
        lookup-insert new_id j r (remove old m.register),
        lookup-insert new_id j' r (remove old m.register),
        lookup-remove old j m.register,
        lookup-remove old j' m.register,
        i.one_request j j' s s',
        i.one_request old j' r s' f,
        i.one_request old j r s f,
        e.beq_iff new_id j,
        e.beq_iff new_id j',
        e.beq_iff old j,
        e.beq_iff old j',
      );
    }
