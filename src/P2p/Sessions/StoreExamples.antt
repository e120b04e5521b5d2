-- ===== src/P2p/Sessions/StoreExamples.antt =====
-- The store of the sessions over a map of numbers, and the theorems at concrete inputs.
use fyles_release.Base.{
  ℕ, ◌+◌, ◌≡◌, refl, Bool, true, false, not, Option, none, some, ◌∷◌, if◌then◌else◌, ltb, ◌==◌,
  ==_iff, nat_eq, arith,
}
use fyles_release.Base.HashMap.{lookup}
use fyles_release.Core.TtlMap.{ExpiringMap, Lawful, TtlMap}
use fyles_release.Core.TtlMap
use fyles_release.P2p.Data.ScopedExpiryMap.{ScopedExpiryMap}
use fyles_release.P2p.Data.ScopedExpiryMap.Client.{IsWell}
use fyles_release.P2p.Data.ScopedExpiryMap
use fyles_release.P2p.Sessions.Store.{
  Session, SessionManager, new_session, get_established_session, clear_session, store_session,
}
use fyles_release.P2p.Sessions.Recent.{
  recent, recent-clear_session, recent-store_session, get_established_session_same,
}

-- A map from keys to values with the time at which they expire.
abbrev Timed : Type 0
Timed = ℕ → Option (Session ℕ × ℕ)

abbrev alive : Option (Session ℕ × ℕ) → ℕ → Option (Session ℕ)
alive none now = none
alive (some (v, until)) now = if ltb now until then some v else none

abbrev replaced : Option (Session ℕ × ℕ) → ℕ → Option (Bool × Session ℕ)
replaced none now = none
replaced (some (v, until)) now = some (not (ltb now until), v)

abbrev timed : ExpiringMap Timed ℕ (Session ℕ)
timed = record {
  empty = λ k. none;
  vacuum_if_needed = λ m now. m;
  insert = λ m k v ttl now. (replaced (m k) now, λ j. if j == k then some (v, now + ttl) else m j);
  get = λ m k now. alive (m k) now;
  remove_entry = λ m k now. (alive (m k) now, λ j. if j == k then none else m j);
}

replaced-alive :
    (o : Option (Session ℕ × ℕ)) (now : ℕ) (w : Session ℕ)
    → alive o now ≡ some w
    → replaced o now ≡ some (false, w)
replaced-alive none now w h = ground (arith, h)
replaced-alive (some (v, until)) now w h = ground (arith, h)

timed-Lawful : Lawful timed
timed-Lawful = record {
  get-vacuum_if_needed = λ m k now later h. refl;
  insert_old = λ m k v w ttl now h. replaced-alive (m k) now w h;
  get-insert = λ m k v ttl now later l h. ground (arith, l, h, ==_iff k k);
  remove_found = λ m k v now h. h;
  get-remove_entry = λ m k now later h. ground (arith, ==_iff k k);
}

abbrev first_session : Session ℕ
first_session = record { use_expiry = 1000; accept_expiry = 2000; content = 1 }

-- Node 5 has a session until 2000.
abbrev one_node : SessionManager Timed ℕ ℕ
one_node = record {
  session_store = record {
    map = λ j. if j == 5 then some (first_session, 2000) else none;
    ttl = 2000;
  };
  expired_session_cache = ScopedExpiryMap.new 15000 15000 60000 0;
}

one_node-IsWell : IsWell 0 one_node.expired_session_cache
unfolding ScopedExpiryMap.new lookup
one_node-IsWell = record {
  is_map = tt;
  within = λ k q h. absurd (ground (arith, h));
  outlived = omega arith;
  some_time = omega arith;
}

recent-clear_session_example :
    recent timed (clear_session timed one_node 5 100 100 101) 5 1500 ≡ recent timed one_node 5 1500
unfolding ScopedExpiryMap.new TtlMap.get
recent-clear_session_example =
    recent-clear_session timed timed-Lawful one_node 0 one_node-IsWell 5 first_session 100 101 1500
      (omega arith) (omega arith) (omega arith) (omega arith) refl refl

recent-store_session_example :
    recent timed (store_session timed one_node 5 (new_session 2 100) 100 100 101) 5 1500
    ≡ new_session 2 100 ∷ recent timed one_node 5 1500
unfolding ScopedExpiryMap.new TtlMap.get
recent-store_session_example =
    recent-store_session timed timed-Lawful one_node 0 one_node-IsWell 5 first_session 100 101 1500
      (omega arith) (omega arith) (omega arith) (omega arith) refl (new_session 2 100) (omega arith)
      refl

get_established_session_same_example :
    get_established_session timed one_node 5 true 1500 1500
    ≡ get_established_session timed one_node 5 false 1500 1500
unfolding TtlMap.get
get_established_session_same_example =
    get_established_session_same timed one_node 5 1500 1500 first_session refl (omega arith)
