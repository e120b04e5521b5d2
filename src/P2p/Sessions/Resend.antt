-- ===== src/P2p/Sessions/Resend.antt =====
-- fyles_service/p2p/src/send_receive_traits/session_send_receive.rs: sending a request again.
use fyles_release.Base.{ℕ, ◌≡◌, refl, ap, Option, none, some, [], ◌∷◌, Eq, arith}
use fyles_release.Base.HashMap.{lookup, insert, remove}
use fyles_release.P2p.RequestRegistry.{
  Registry, RegisteredRequest, called, update_request_id, check_request_metadata,
}
use fyles_release.P2p.Sessions.{
  Network, Link, update, SendRes, sent, get_session_error, encrypt_error, after_call, in_world,
  updated, enter, send_encrypted, send_in_session, send_internal,
}
use fyles_release.P2p.Sessions.Registered.{inserted_metadata, insert-same}

-- The request stands in the registry, under some id of the network layer.
abbrev pub IsTracked :
    {W N K C S R X A : Type 0} → ⦃k : Eq K⦄ → ℕ → ℕ → Link W N K C S R X A → Type 0
IsTracked {K} n external l = (id : K) × (check_request_metadata l.registry id ≡ some (n, external))

-- One more message went to the node.
abbrev pub IsSentOnce :
    {W N K C S R X A : Type 0} → N → Link W N K C S R X A → Link W N K C S R X A → Type 0
IsSentOnce {X} node l l' = (text : X) × (l'.sent_requests ≡ (node, text) ∷ l.sent_requests)

-- Nothing was told; a request that was sent went out once and stands in the registry, and one that was
-- not sent did not go out.
abbrev pub IsResent :
    {W N K C S R X A : Type 0}
    → ⦃k : Eq K⦄ → N
    → ℕ
    → ℕ
    → Link W N K C S R X A
    → SendRes × Link W N K C S R X A
    → Type 0
IsResent node n external l (sent x, l') =
    (x ≡ external) × (l'.told ≡ l.told) × IsSentOnce node l l' × IsTracked n external l'
IsResent node n external l (get_session_error, l') =
    (l'.told ≡ l.told) × (l'.sent_requests ≡ l.sent_requests)
IsResent node n external l (encrypt_error, l') =
    (l'.told ≡ l.told) × (l'.sent_requests ≡ l.sent_requests)

module _ {W N K C S R X A Y : Type 0} ⦃k : Eq K⦄ ⦃e : Eq S⦄ (o : Network W N K C S R X A Y)
    (node : N) (old : K) where
  update_request_id-registered :
      (m : Registry K C R S) (id : K) (r : RegisteredRequest C R S)
      → lookup old m.register ≡ some r
      → update_request_id {N = N} m old id
        ≡ called
            (some r.external_id)
            (record m { register = insert id r (remove old m.register) })
            []
  unfolding update_request_id
  update_request_id-registered m id r f = ground (arith, f)

  abbrev moved : K → RegisteredRequest C R S → Link W N K C S R X A → Link W N K C S R X A
  moved id r l =
      after_call
        (called (some r.external_id)
          (record l.registry { register = insert id r (remove old l.registry.register) }) [])
        l

  enter-moved :
      (session : S) (id : K) (contact : Option C) (request : R) (l : Link W N K C S R X A)
      (r : RegisteredRequest C R S)
      → lookup old l.registry.register ≡ some r
      → enter o node session id contact request (update old) l ≡ (sent r.external_id, moved id r l)
  unfolding enter
  enter-moved session id contact request l r f =
      ap (λ c. updated o node id c l) (update_request_id-registered l.registry id r f)

  enter-IsTracked :
      (session : S) (id : K) (contact : Option C) (request : R) (l : Link W N K C S R X A)
      (r : RegisteredRequest C R S)
      → lookup old l.registry.register ≡ some r
      → let (res, l') = enter o node session id contact request (update old) l in
        (res ≡ sent r.external_id)
        × (l'.told ≡ l.told)
        × (l'.sent_requests ≡ l.sent_requests)
        × IsTracked r.retry_count r.external_id l'
  enter-IsTracked session id contact request l r f =
      rw (enter-moved session id contact request l r f) (
        refl,
        refl,
        refl,
        (
          id,
          inserted_metadata (moved id r l).registry id r
              (insert-same (record l.registry { register = remove old l.registry.register }) id r),
        ),
      )

  -- What was entered for a message that went out.
  after_sending :
      (external n : ℕ) (text : X) (l : Link W N K C S R X A)
      (result : SendRes × Link W N K C S R X A)
      → result.0 ≡ sent external
      → result.1.told ≡ l.told
      → result.1.sent_requests ≡ (node, text) ∷ l.sent_requests
      → IsTracked n external result.1
      → IsResent node n external l result
  after_sending external n text l (res, after) q told out tracked =
      rw q (refl, told, (text, out), tracked)

  send_encrypted-IsResent :
      (session : S) (encrypted : Option X) (contact : Option C) (request : R)
      (l : Link W N K C S R X A) (r : RegisteredRequest C R S)
      → lookup old l.registry.register ≡ some r
      → IsResent node r.retry_count r.external_id l
          (send_encrypted o node session encrypted contact request (update old) l)
  unfolding send_encrypted
  send_encrypted-IsResent session none contact request l r f = (refl, refl)
  send_encrypted-IsResent session (some encrypted) contact request l r f =
      let (id, w) = o.send_encrypted_request l.world node encrypted in
      let out = record l { world = w; sent_requests = (node, encrypted) ∷ l.sent_requests } in
      let (res, told, same, tracked) = enter-IsTracked session id contact request out r f in
      after_sending r.external_id r.retry_count encrypted l
        (enter o node session id contact request (update old) out) res told same tracked

  send_in_session-IsResent :
      (session : Option S) (contact : Option C) (request : R) (l : Link W N K C S R X A)
      (r : RegisteredRequest C R S)
      → lookup old l.registry.register ≡ some r
      → IsResent node r.retry_count r.external_id l
          (send_in_session o node session contact request (update old) l)
  unfolding send_in_session
  send_in_session-IsResent none contact request l r f = (refl, refl)
  send_in_session-IsResent (some session) contact request l r f =
      let (encrypted, w) = o.encrypt l.world session request in
      send_encrypted-IsResent session encrypted contact request (in_world w l) r f

  pub send_internal-IsResent :
      (contact : Option C) (request : R) (l : Link W N K C S R X A) (r : RegisteredRequest C R S)
      → lookup old l.registry.register ≡ some r
      → IsResent node r.retry_count r.external_id l
          (send_internal o node contact request (update old) l)
  unfolding send_internal
  send_internal-IsResent contact request l r f =
      let (session, w) = o.get_or_establish_session l.world node contact in
      send_in_session-IsResent session contact request (in_world w l) r f
