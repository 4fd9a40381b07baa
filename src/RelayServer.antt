-- ===== src/RelayServer.antt =====
-- The relay server: `RelayServer` and `RelayProtocol` of backend/app/services/relay_server.py. The
-- bytes of a frame and the receiving loop are in Frames. A connection object is a number that names
-- its row in `conns`; times are whole seconds. What the JSON library and the decoder of texts do
-- stands in `Codec`.
pub mod Protocol
pub mod Registry
pub mod Watch
pub mod Access
mod Tests
use midscale.Prelude.{
  ℕ, ◌+◌, String, Bool, true, false, Option, none, some, List, [], ◌∷◌, ◌++◌, not, ltb, ◌==◌, find,
  update_first, if◌then◌else◌,
}
use midscale.Prelude.Dict.{Key, Dict, key_eq, get, put, pop, keep_items}

-- `RelayProtocol`: what it knows of its peer, whether its transport is there, and what it has written.
pub record Conn : Type 0 where
  pub ident : ℕ
  pub session_token : Key
  pub device_id : Key
  pub has_transport : Bool
  pub written : List (List ℕ)

-- `RelayServer` with the connections that its protocol objects make up.
pub record Server : Type 0 where
  pub connections : Dict ℕ
  pub heartbeats : Dict ℕ
  pub valid_tokens : Dict String
  pub conns : List Conn

abbrev pub stored_key : Option String → Key
stored_key none = none
stored_key (some s) = some s

unfoldable pub add_valid_token : String → String → Server → Server
add_valid_token token session_id w = record w {
  valid_tokens = put (some token) session_id w.valid_tokens;
}

-- `stored == session_id`, where `stored` is `None` for an unknown token.
unfoldable pub validate_session : (token session_id : Key) → Server → Bool
validate_session token session_id w = key_eq (stored_key (get token w.valid_tokens)) session_id

unfoldable pub register_connection : (device_id : Key) (conn now : ℕ) → Server → Server
register_connection d c now w = record w {
  connections = put d c w.connections;
  heartbeats = put d now w.heartbeats;
}

-- The tokens that go are those whose session id is the device id.
unfoldable pub unregister_connection : (device_id : Key) → Server → Server
unregister_connection d w = record w {
  connections = pop d w.connections;
  heartbeats = pop d w.heartbeats;
  valid_tokens = keep_items (λ _ v. not (key_eq (some v) d)) w.valid_tokens;
}

abbrev pub get_connection : Key → Server → Option ℕ
get_connection d w = get d w.connections

unfoldable pub update_heartbeat : (device_id : Key) (now : ℕ) → Server → Server
update_heartbeat d now w = record w { heartbeats = put d now w.heartbeats }

-- `ts < now - 120`; the clock is not below 0, so the sum says the same.
abbrev pub is_silent : ℕ → ℕ → Bool
is_silent now ts = ltb (ts + 120) now

abbrev pub stale_keys : ℕ → Dict ℕ → List Key
stale_keys now [] = []
stale_keys now ((k, ts) ∷ d) = if is_silent now ts then k ∷ stale_keys now d else stale_keys now d

unfoldable pub unregister_all : List Key → Server → Server
unfolding unregister_connection
unregister_all [] w = w
unregister_all (d ∷ ds) w = unregister_all ds (unregister_connection d w)

unfoldable pub remove_expired_tokens : ℕ → Server → Server
unfolding unregister_all
remove_expired_tokens now w = unregister_all (stale_keys now w.heartbeats) w

abbrev pub is_conn : ℕ → Conn → Bool
is_conn c p = p.ident == c

-- A write to the fields of one protocol object.
abbrev pub set_conn : ℕ → (Conn → Conn) → Server → Server
set_conn c f w = record w { conns = update_first (is_conn c) f w.conns }

-- `self._device_id` of a protocol object.
abbrev pub device_of : ℕ → Server → Key
device_of c w = elim (find (is_conn c) w.conns) [ none ↦ none | some p ↦ p.device_id ]
