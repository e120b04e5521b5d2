-- ===== src/P2p/Sessions/Store.antt =====
-- fyles_service/p2p/src/send_receive_traits/get_session.rs: `SessionManager` as the store of the sessions,
-- with those that were replaced or cleared. The locks are held for a whole call, and every read of the
-- clock is an argument.
use fyles_release.Base.{
  ℕ, ◌+◌, Bool, ◌&&◌, Option, none, some, List, [], ◌∷◌, ◌++◌, if◌then◌else◌, ltb, Eq,
}
use fyles_release.Core.TtlMap.{ExpiringMap, TtlMap}
use fyles_release.Core.TtlMap
use fyles_release.P2p.Data.ScopedExpiryMap.{ScopedExpiryMap, push}
use fyles_release.P2p.Data.ScopedExpiryMap

-- `content` is the authentication, the secret and the ciphers.
pub record Session (X : Type 0) : Type 0 where
  pub use_expiry : ℕ
  pub accept_expiry : ℕ
  pub content : X

abbrev pub session_validity_duration : ℕ
session_validity_duration = 1800000

abbrev pub accept_session_past_valid_duration : ℕ
accept_session_past_valid_duration = 60000

unfoldable pub new_session : {X : Type 0} → X → ℕ → Session X
new_session content now =
    let use_expiry = now + session_validity_duration in
    record {
      use_expiry = use_expiry;
      accept_expiry = use_expiry + accept_session_past_valid_duration;
      content = content;
    }

-- Without the sessions that are being established, the identity and the channels.
pub record SessionManager (M N X : Type 0) : Type 0 where
  pub session_store : TtlMap M
  pub expired_session_cache : ScopedExpiryMap N (Session X)

abbrev pub to_list : {A : Type 0} → Option A → List A
to_list none = []
to_list (some a) = a ∷ []

module _ {M N X : Type 0} ⦃k : Eq N⦄ (e : ExpiringMap M N (Session X)) where
  unfoldable pub new_session_manager : ℕ → SessionManager M N X
  new_session_manager now = record {
    session_store = TtlMap.new e (session_validity_duration + accept_session_past_valid_duration);
    expired_session_cache = ScopedExpiryMap.new 15000 15000 60000 now;
  }

  -- The `match` on the existing session.
  abbrev pub established : Bool → ℕ → Option (Session X) → Option (Session X)
  established use_for_send now none = none
  established use_for_send now (some session) =
      if use_for_send && ltb now session.use_expiry
      then some session
      else (if ltb now session.accept_expiry then some session else none)

  unfoldable pub get_established_session :
      SessionManager M N X → N → Bool → ℕ → ℕ → Option (Session X)
  get_established_session m node use_for_send looked now =
      established use_for_send now (TtlMap.get e m.session_store node looked)

  unfoldable pub get_recent_receive_sessions :
      SessionManager M N X → N → ℕ → ℕ → ℕ → List (Session X) × SessionManager M N X
  get_recent_receive_sessions m node looked now again =
      let (cached, cache) = ScopedExpiryMap.get m.expired_session_cache node now again in
      (
        to_list (TtlMap.get e m.session_store node looked) ++ cached,
        record m { expired_session_cache = cache },
      )

  -- A session that is not in use any more.
  abbrev pub retain_session :
      Option (Session X) → N → ℕ → ℕ → ScopedExpiryMap N (Session X) → ScopedExpiryMap N (Session X)
  retain_session none node now again cache = cache
  retain_session (some session) node now again cache = push cache node session now again

  unfoldable pub clear_session : SessionManager M N X → N → ℕ → ℕ → ℕ → SessionManager M N X
  clear_session m node looked now again =
      let (session, store) = TtlMap.remove e m.session_store node looked in
      record {
        session_store = store;
        expired_session_cache = retain_session session node now again m.expired_session_cache;
      }

  -- The end of both handlers of a session that was established.
  unfoldable pub store_session :
      SessionManager M N X → N → Session X → ℕ → ℕ → ℕ → SessionManager M N X
  store_session m node session looked now again =
      let (old, store) = TtlMap.insert e m.session_store node session looked in
      record {
        session_store = store;
        expired_session_cache = retain_session old node now again m.expired_session_cache;
      }
