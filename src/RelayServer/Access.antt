-- ===== src/RelayServer/Access.antt =====
-- Who gets a registration on the relay and who can take it away: `RelayProtocol` of
-- backend/app/services/relay_server.py.
use midscale.Prelude.{
  ℕ, String, true, false, Option, none, some, List, ◌≡◌, ◌≢◌, refl, ◌∙◌, inl, inr, arith,
  if◌then◌else◌, Bool-cases, ◌&&◌, not, eq_iff,
}
use midscale.Prelude.Dict.{Key, key_eq, key_eq_iff, get, get-put, get-pop, get-keep_items}
use midscale.RelayServer.{
  Server, validate_session, register_connection, unregister_connection, device_of, stored_key,
}
use midscale.RelayServer.Protocol.{
  Codec, is_named, field, send_message, answer_connect, handle_connect, connection_lost,
}

-- The registrations behind an answer, with the token looked up in the server that was given.
answer-connections :
    (json : Codec) (c now : ℕ) (token d sid : Key) (w : Server) (k : Key)
    → get k (answer_connect json c now token d sid w).connections
      ≡ (if validate_session token sid w && key_eq d k then some c else get k w.connections)
unfolding answer_connect register_connection send_message
answer-connections json c now token d sid w k = elim (Bool-cases (validate_session token sid w)) [
  | inl e ↦ rw (e, answer_connect) (get-put d k c w.connections)
  | inr e ↦ rw (e, answer_connect) refl
]

stored_key_inj : (o : Option String) (s : String) → stored_key o ≡ some s → o ≡ some s
stored_key_inj none s e = cc
stored_key_inj (some t) s e = e

module _ (json : Codec) (c now : ℕ) (body : List ℕ) (w : Server) (obj : List (String × Key))
    (loaded : json.loads body ≡ some obj) where
  connect-connections :
      (k : Key)
      → get k (handle_connect json c now body w).connections ≡ (
          if validate_session (field "token" obj) (field "session_id" obj) w
            && key_eq (field "device_id" obj) k
          then some c
          else get k w.connections)
  unfolding handle_connect validate_session
  connect-connections k =
      rw (loaded, handle_connect)
        (answer-connections json c now (field "token" obj) (field "device_id" obj)
          (field "session_id" obj) _ k)

  -- A connect request that names its session by a text changes no registration unless its token was
  -- admitted for that session.
  pub connect_needs_token :
      (sid : String) (d : Key)
      → field "session_id" obj ≡ some sid
      → get (field "token" obj) w.valid_tokens ≢ some sid
      → get d (handle_connect json c now body w).connections ≡ get d w.connections
  unfolding validate_session
  connect_needs_token sid d named denied = connect-connections d ∙ rw (refused, ◌&&◌) refl
    where
      refused : validate_session (field "token" obj) (field "session_id" obj) w ≡ false
      refused = ground (
        arith,
        named,
        key_eq_iff (stored_key (get (field "token" obj) w.valid_tokens)) (some sid),
        stored_key_inj (get (field "token" obj) w.valid_tokens) sid,
      )

  -- A request whose session id is JSON's `null` and whose token is unknown is accepted all the same:
  -- the device that it names is registered to this connection.
  connect_null_session :
      field "session_id" obj ≡ none
      → get (field "token" obj) w.valid_tokens ≡ none
      → get (field "device_id" obj) (handle_connect json c now body w).connections ≡ some c
  unfolding validate_session
  connect_null_session null unknown =
      connect-connections (field "device_id" obj)
      ∙ ground (arith, null, unknown, key_eq_iff (field "device_id" obj) (field "device_id" obj))

-- When a connection that named a device by a text that is not empty ends, the device's registration goes, whichever connection
-- holds it: also one that the device has made in the meantime.
pub lost_unregisters :
    (json : Codec) (c : ℕ) (w : Server) (d : String)
    → device_of c w ≡ some d
    → d ≢ ""
    → get (some d) (connection_lost json c w).connections ≡ none
unfolding connection_lost unregister_connection
lost_unregisters json c w d e ne =
    rw (named, connection_lost)
      (get-pop (device_of c w) (some d) w.connections
        ∙ ground (arith, e, key_eq_iff (some d) (some d)))
  where
    named : is_named (device_of c w) ≡ true
    named = ground (arith, e, eq_iff d "")

-- Taking a device off the register leaves every other device's registration, and every token whose
-- session id is not the device's own id stays as valid as it was.
unregister_connection_lem :
    (d k : Key) (w : Server) (token : Key) (sid : String)
    → some sid ≢ d
    → get token w.valid_tokens ≡ some sid
    → (get k (unregister_connection d w).connections
        ≡ (if key_eq d k then none else get k w.connections))
      × (validate_session token (some sid) (unregister_connection d w) ≡ true)
unfolding unregister_connection validate_session
unregister_connection_lem d k w token sid ne e = (
  get-pop d k w.connections,
  rw
      (get-keep_items (λ _ v. not (key_eq (some v) d)) token w.valid_tokens sid e
        (ground (arith, key_eq_iff (some sid) d)))
      ((key_eq_iff (some sid) (some sid)).1 refl),
)
