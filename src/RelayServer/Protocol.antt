-- ===== src/RelayServer/Protocol.antt =====
-- The message handlers of `RelayProtocol`: backend/app/services/relay_server.py.
use midscale.Prelude.{
  ◌&&◌, ℕ, ◌+◌, String, Bool, true, false, Option, none, some, List, [], ◌∷◌, ◌++◌, not, str_eq,
  take, drop, length, ◌==◌, if◌then◌else◌,
}
use midscale.Prelude.Dict.{Key}
use midscale.Frames.{relay_magic, payload_of, encode}
use midscale.RelayServer.{
  Server, validate_session, register_connection, unregister_connection, get_connection,
  update_heartbeat, set_conn, device_of,
}

-- A field of a JSON object that is sent: `None`, a text, the hexadecimal text of some bytes, or the
-- text of a time.
pub data Field : Type 0 where
  null : Field
  text : String → Field
  hex : List ℕ → Field
  isoformat : ℕ → Field

abbrev pub field_of : Key → Field
field_of none = null
field_of (some s) = text s

-- The libraries that the handlers call. `loads` is `json.loads(body.decode())` of a connect request,
-- an object whose fields are texts or `None`; it is `none` where the call, or the use of its result as
-- an object, raises, and `is_object` says where it does not. `decode` is `bytes.decode`.
pub record Codec : Type 0 where
  pub loads : List ℕ → Option (List (String × Key))
  pub is_object : List ℕ → Bool
  pub dumps : List (String × Field) → List ℕ
  pub decode : List ℕ → Option String

-- data.get(name, "")
abbrev pub field : String → List (String × Key) → Key
field name [] = some ""
field name ((k, v) ∷ rest) = if str_eq k name then v else field name rest

-- `if self._device_id:`
abbrev pub is_named : Key → Bool
is_named none = false
is_named (some d) = not (str_eq d "")

-- Nothing is written without a transport, nor where the length does not fit the header.
unfoldable pub send_message : (conn msg_type : ℕ) → List ℕ → Server → Server
unfolding payload_of encode
send_message c msg_type body w =
    set_conn c
      (λ p.
        if p.has_transport
        then elim (encode (payload_of msg_type body)) [
          | none ↦ p
          | some frame ↦ record p { written = p.written ++ frame ∷ [] }
        ]
        else p)
      w

abbrev next_index : Option ℕ → Option ℕ
next_index none = none
next_index (some k) = some (k + 1)

-- body.index(b"|")
abbrev pub index_bar : List ℕ → Option ℕ
index_bar [] = none
index_bar (b ∷ bs) = if b == b'|' then some 0 else next_index (index_bar bs)

-- payload.startswith(prefix)
abbrev pub starts_with : List ℕ → List ℕ → Bool
starts_with payload [] = true
starts_with [] (b ∷ prefix) = false
starts_with (a ∷ payload) (b ∷ prefix) = a == b && starts_with payload prefix

module _ (json : Codec) where
  -- The answer to a connect request: the device is registered if the session is valid.
  unfoldable pub answer_connect :
      (conn now : ℕ) → (token device_id session_id : Key) → Server → Server
  answer_connect c now token device_id session_id w =
      if validate_session token session_id w
      then send_message c 5
          (json.dumps (
            ("status", text "connected")
            ∷ ("session_id", field_of session_id)
            ∷ ("device_id", field_of device_id)
            ∷ []))
          (register_connection device_id c now w)
      else send_message c 5
          (json.dumps
            (("status", text "rejected") ∷ ("reason", text "invalid token or session") ∷ []))
          w

  -- The token and the device id are stored before the token is looked at.
  unfoldable pub handle_connect : (conn now : ℕ) → List ℕ → Server → Server
  unfolding answer_connect
  handle_connect c now body w = elim (json.loads body) [
    | none ↦ w
    | some obj ↦
        answer_connect c now (field "token" obj) (field "device_id" obj) (field "session_id" obj) (
          set_conn c
            (λ p. record p { session_token = field "token" obj; device_id = field "device_id" obj })
            w)
  ]

  -- Forwards the data behind the bar to the connection that was found.
  abbrev pub forward : Option ℕ → (conn bar : ℕ) → List ℕ → Server → Server
  forward none c k body w = w
  forward (some t) c k body w =
      send_message t 3
        (json.dumps
          (("from_device_id", field_of (device_of c w)) ∷ ("data", hex (drop (k + 1) body)) ∷ []))
        w

  abbrev pub forward_to : Option String → (conn bar : ℕ) → List ℕ → Server → Server
  forward_to none c k body w = w
  forward_to (some target) c k body w = forward (get_connection (some target) w) c k body w

  -- The text in front of the bar names the device; without a bar the search for it raises.
  abbrev pub forward_at : Option ℕ → (conn : ℕ) → List ℕ → Server → Server
  forward_at none c body w = w
  forward_at (some k) c body w = forward_to (json.decode (take k body)) c k body w

  unfoldable pub handle_data : (conn : ℕ) → List ℕ → Server → Server
  handle_data c body w = forward_at (index_bar body) c body w

  unfoldable pub handle_disconnect : (conn : ℕ) → Server → Server
  handle_disconnect c w =
      set_conn c (λ p. record p { session_token = none; device_id = none })
        (if is_named (device_of c w) then unregister_connection (device_of c w) w else w)

  unfoldable pub handle_heartbeat : (conn now : ℕ) → List ℕ → Server → Server
  handle_heartbeat c now body w =
      if json.is_object body
      then send_message c 8 (json.dumps (("status", text "ok") ∷ ("timestamp", isoformat now) ∷ []))
          (if is_named (device_of c w) then update_heartbeat (device_of c w) now w else w)
      else w

  -- By the type byte. With no such byte the index raises, which is logged like any other exception.
  unfoldable pub dispatch : (conn now : ℕ) → List ℕ → Server → Server
  dispatch c now [] w = w
  dispatch c now (msg_type ∷ body) w =
      if msg_type == 1
      then send_message c 2 [] w
      else if msg_type == 4
      then handle_connect c now body w
      else if msg_type == 3
      then handle_data c body w
      else if msg_type == 6
      then handle_disconnect c w
      else if msg_type == 7
      then handle_heartbeat c now body w
      else w

  unfoldable pub handle_message : (conn now : ℕ) → List ℕ → Server → Server
  handle_message c now payload w =
      if starts_with payload relay_magic
      then dispatch c now (drop (length relay_magic) payload) w
      else w

  unfoldable pub connection_lost : (conn : ℕ) → Server → Server
  connection_lost c w =
      set_conn c (λ p. record p { has_transport = false })
        (if is_named (device_of c w) then unregister_connection (device_of c w) w else w)

  abbrev pub disconnect_each : List (Key × ℕ) → Server → Server
  disconnect_each [] w = w
  disconnect_each ((d, c) ∷ rest) w = disconnect_each rest (handle_disconnect c w)

  -- `stop`, less the listening socket: the registered connections forget who they are, and the
  -- registry is emptied.
  unfoldable pub stop : Server → Server
  unfolding handle_disconnect
  stop w = record (disconnect_each w.connections w) {
    connections = [];
    heartbeats = [];
    valid_tokens = [];
  }
