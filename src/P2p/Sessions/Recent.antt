-- ===== src/P2p/Sessions/Recent.antt =====
-- fyles_service/p2p/src/send_receive_traits/get_session.rs: which sessions a node's messages are decrypted
-- with, and which session a message to it is encrypted with.
use fyles_release.Base.{
  ℕ, ◌+◌, ◌≤◌, ◌<◌, ◌≡◌, refl, ap, ◌∙◌, true, false, none, some, List, ◌∷◌, ◌++◌, Eq, arith,
}
use fyles_release.Core.TtlMap.{ExpiringMap, Lawful, TtlMap}
use fyles_release.Core.TtlMap
use fyles_release.P2p.Data.ScopedExpiryMap.{ScopedExpiryMap, push}
use fyles_release.P2p.Data.ScopedExpiryMap.Client.{view, IsWell, view-push, view-get, push-IsWell}
use fyles_release.P2p.Sessions.Store.{
  Session, SessionManager, to_list, established, get_established_session,
  get_recent_receive_sessions, clear_session, store_session,
}

module _ {M N X : Type 0} ⦃k : Eq N⦄ (e : ExpiringMap M N (Session X)) where
  -- What the sessions of a node are at a time.
  abbrev pub recent : SessionManager M N X → N → ℕ → List (Session X)
  recent m node now = (get_recent_receive_sessions e m node now now now).0

  recent-view :
      (m : SessionManager M N X) (at : ℕ) (node : N) (now : ℕ)
      → IsWell at m.expired_session_cache
      → recent m node now
        ≡ to_list (TtlMap.get e m.session_store node now) ++ view m.expired_session_cache node now
  unfolding get_recent_receive_sessions
  recent-view m at node now well =
      ap (λ t. to_list (TtlMap.get e m.session_store node now) ++ t)
        (view-get m.expired_session_cache at node node now now well (omega arith)).0

  retained-view :
      (cache : ScopedExpiryMap N (Session X)) (at : ℕ) (node : N) (session : Session X)
      (now again later : ℕ)
      → IsWell at cache
      → now ≤ again
      → again ≤ later
      → later < now + cache.value_ttl
      → view (push cache node session now again) node later ≡ session ∷ view cache node later
  retained-view cache at node session now again later well l u h =
      ground
        (arith, view-push cache at node node session now again later well l u, k.beq_iff node node)

  module _ (lawful : Lawful e) (m : SessionManager M N X) (at : ℕ)
      (well : IsWell at m.expired_session_cache) (node : N) (old : Session X) (now again later : ℕ)
      (after : at ≤ now) (running : now ≤ again) (asked : again ≤ later)
      (kept : later < now + m.expired_session_cache.value_ttl)
      (current : TtlMap.get e m.session_store node now ≡ some old) where
    gone : TtlMap.get e (TtlMap.remove e m.session_store node now).1 node later ≡ none
    unfolding TtlMap.remove TtlMap.get
    gone = lawful.get-remove_entry m.session_store.map node now later (omega arith)

    cleared : clear_session e m node now now again ≡ record {
      session_store = (TtlMap.remove e m.session_store node now).1;
      expired_session_cache = push m.expired_session_cache node old now again;
    }
    unfolding clear_session TtlMap.remove TtlMap.get
    cleared = rw (lawful.remove_found m.session_store.map node old now current) refl

    -- Over a lawful map of expiring entries: to clear the session of a node does not change which
    -- sessions are tried on a message of the node, nor their order, until the time at which it
    -- leaves the cache and while it would not have expired in the store.
    pub recent-clear_session :
        TtlMap.get e m.session_store node later ≡ some old
        → recent (clear_session e m node now now again) node later ≡ recent m node later
    recent-clear_session still =
        rw
          (
            cleared,
            recent-view
                (record {
                  session_store = (TtlMap.remove e m.session_store node now).1;
                  expired_session_cache = push m.expired_session_cache node old now again;
                })
                now node later
                (push-IsWell m.expired_session_cache at node old now again well after),
            recent-view m at node later well,
            still,
            gone,
          )
          (retained-view m.expired_session_cache at node old now again later well running asked
            kept)

    stored :
        (session : Session X)
        → store_session e m node session now now again ≡ record {
          session_store = (TtlMap.insert e m.session_store node session now).1;
          expired_session_cache = push m.expired_session_cache node old now again;
        }
    unfolding store_session TtlMap.insert TtlMap.get
    stored session =
        rw
          (lawful.insert_old (e.vacuum_if_needed m.session_store.map now) node session old
            m.session_store.ttl now
            (lawful.get-vacuum_if_needed m.session_store.map node now now (omega arith) ∙ current))
          refl

    got :
        (session : Session X)
        → later < now + m.session_store.ttl
        → TtlMap.get e (TtlMap.insert e m.session_store node session now).1 node later
          ≡ some session
    unfolding TtlMap.insert TtlMap.get
    got session fresh =
        lawful.get-insert (e.vacuum_if_needed m.session_store.map now) node session
          m.session_store.ttl now later (omega arith) fresh

    -- Over a lawful map of expiring entries: if a session is established with a node that has
    -- another one, then until the time at which the old one leaves the cache, and while neither
    -- expired in the store, the sessions that are tried on a message of the node are the new one,
    -- and behind it those that were tried without it, in their order.
    pub recent-store_session :
        (session : Session X)
        → later < now + m.session_store.ttl
        → TtlMap.get e m.session_store node later ≡ some old
        → recent (store_session e m node session now now again) node later
          ≡ session ∷ recent m node later
    recent-store_session session fresh still =
        rw
          (
            stored session,
            recent-view
                (record {
                  session_store = (TtlMap.insert e m.session_store node session now).1;
                  expired_session_cache = push m.expired_session_cache node old now again;
                })
                now node later
                (push-IsWell m.expired_session_cache at node old now again well after),
            recent-view m at node later well,
            still,
            got session fresh,
          )
          (ap (λ t. session ∷ t)
            (retained-view m.expired_session_cache at node old now again later well running asked
              kept))

  established-same :
      (now : ℕ) (session : Session X)
      → session.use_expiry ≤ session.accept_expiry
      → established e true now (some session) ≡ established e false now (some session)
  established-same now session h = ground (arith, h)

  -- For a node whose session is not to be used for longer than it is accepted,
  -- get_established_session gives the same whether the session is wanted for sending or not.
  pub get_established_session_same :
      (m : SessionManager M N X) (node : N) (looked now : ℕ) (session : Session X)
      → TtlMap.get e m.session_store node looked ≡ some session
      → session.use_expiry ≤ session.accept_expiry
      → get_established_session e m node true looked now
        ≡ get_established_session e m node false looked now
  unfolding get_established_session
  get_established_session_same m node looked now session found h =
      rw found (established-same now session h)
