-- ===== src/RelayServer/Registry.antt =====
-- Who is registered: `RelayServer` of backend/app/services/relay_server.py.
use midscale.Prelude.{
  ℕ, String, Bool, true, false, Option, none, some, List, [], ◌∷◌, ◌==◌, ◌≡◌, inl, inr, arith,
  if◌then◌else◌, Option-cases, Bool-cases, take, drop, length,
}
use midscale.Prelude.Dict.{Key, get, get-put, get-pop}
use midscale.Frames.{relay_magic}
use midscale.RelayServer.{
  Conn, Server, validate_session, register_connection, unregister_connection, update_heartbeat,
  set_conn, device_of,
}
use midscale.RelayServer.Protocol.{
  Codec, is_named, answer_connect, forward, forward_to, forward_at, index_bar, starts_with,
  send_message, handle_connect, handle_data, handle_disconnect, handle_heartbeat, dispatch,
  handle_message, connection_lost,
}

-- Every registered device has a heartbeat, so a silent one is found by the clean-up.
pub record IsWatched (w : Server) : Type 0 where
  pub watched : (d : Key) → get d w.heartbeats ≡ none → get d w.connections ≡ none

pub register-IsWatched :
    (d : Key) (c now : ℕ) (w : Server) → IsWatched w → IsWatched (register_connection d c now w)
unfolding register_connection
register-IsWatched d c now w h = record {
  watched = λ k e. rw get-put (ground (arith, get-put d k now w.heartbeats, h.watched k));
}

pub unregister-IsWatched :
    (d : Key) (w : Server) → IsWatched w → IsWatched (unregister_connection d w)
unfolding unregister_connection
unregister-IsWatched d w h = record {
  watched = λ k e. rw get-pop (ground (arith, get-pop d k w.heartbeats, h.watched k));
}

pub heartbeat-IsWatched :
    (d : Key) (now : ℕ) (w : Server) → IsWatched w → IsWatched (update_heartbeat d now w)
unfolding update_heartbeat
heartbeat-IsWatched d now w h = record {
  watched = λ k e. ground (arith, get-put d k now w.heartbeats, h.watched k);
}

set_conn-IsWatched :
    (c : ℕ) (f : Conn → Conn) (w : Server) → IsWatched w → IsWatched (set_conn c f w)
set_conn-IsWatched c f w h = record { watched = h.watched }

send-IsWatched :
    (c t : ℕ) (b : List ℕ) (w : Server) → IsWatched w → IsWatched (send_message c t b w)
unfolding send_message
send-IsWatched c t b w h = record { watched = h.watched }

forget-IsWatched :
    (d : Key) (w : Server)
    → IsWatched w
    → IsWatched (if is_named d then unregister_connection d w else w)
forget-IsWatched d w h = elim (Bool-cases (is_named d)) [
  | inl e ↦ rw e (unregister-IsWatched d w h)
  | inr e ↦ rw e h
]

if-IsWatched :
    (b : Bool) {v w : Server} → IsWatched v → IsWatched w → IsWatched (if b then v else w)
if-IsWatched true h k = h
if-IsWatched false h k = k

module _ (json : Codec) where
  answer-IsWatched :
      (c now : ℕ) (token d sid : Key) (w : Server)
      → IsWatched w
      → IsWatched (answer_connect json c now token d sid w)
  unfolding answer_connect
  answer-IsWatched c now token d sid w h = elim (Bool-cases (validate_session token sid w)) [
    | inl e ↦ rw (e, answer_connect) (send-IsWatched c 5 _ _ (register-IsWatched d c now w h))
    | inr e ↦ rw (e, answer_connect) (send-IsWatched c 5 _ w h)
  ]

  connect-IsWatched :
      (c now : ℕ) (b : List ℕ) (w : Server)
      → IsWatched w
      → IsWatched (handle_connect json c now b w)
  unfolding handle_connect
  connect-IsWatched c now b w h = elim (Option-cases (json.loads b)) [
    | inl e ↦ rw (e, handle_connect) h
    | inr (obj, e) ↦
        rw (e, handle_connect) (answer-IsWatched c now _ _ _ _ (set_conn-IsWatched c _ w h))
  ]

  forward-IsWatched :
      (t : Option ℕ) (c k : ℕ) (b : List ℕ) (w : Server)
      → IsWatched w
      → IsWatched (forward json t c k b w)
  forward-IsWatched none c k b w h = h
  forward-IsWatched (some t) c k b w h = send-IsWatched t 3 _ w h

  forward_to-IsWatched :
      (t : Option String) (c k : ℕ) (b : List ℕ) (w : Server)
      → IsWatched w
      → IsWatched (forward_to json t c k b w)
  forward_to-IsWatched none c k b w h = h
  forward_to-IsWatched (some t) c k b w h = forward-IsWatched (get (some t) w.connections) c k b w h

  forward_at-IsWatched :
      (k : Option ℕ) (c : ℕ) (b : List ℕ) (w : Server)
      → IsWatched w
      → IsWatched (forward_at json k c b w)
  forward_at-IsWatched none c b w h = h
  forward_at-IsWatched (some k) c b w h = forward_to-IsWatched (json.decode (take k b)) c k b w h

  disconnect-IsWatched : (c : ℕ) (w : Server) → IsWatched w → IsWatched (handle_disconnect json c w)
  unfolding handle_disconnect
  disconnect-IsWatched c w h = set_conn-IsWatched c _ _ (forget-IsWatched (device_of c w) w h)

  pub lost-IsWatched : (c : ℕ) (w : Server) → IsWatched w → IsWatched (connection_lost json c w)
  unfolding connection_lost
  lost-IsWatched c w h = set_conn-IsWatched c _ _ (forget-IsWatched (device_of c w) w h)

  beat-IsWatched :
      (c now : ℕ) (b : List ℕ) (w : Server)
      → IsWatched w
      → IsWatched (handle_heartbeat json c now b w)
  unfolding handle_heartbeat
  beat-IsWatched c now b w h = elim (Bool-cases (json.is_object b)) [
    | inl e ↦
        rw (e, handle_heartbeat)
          (elim (Bool-cases (is_named (device_of c w))) [
            | inl n ↦ rw n (send-IsWatched c 8 _ _ (heartbeat-IsWatched (device_of c w) now w h))
            | inr n ↦ rw n (send-IsWatched c 8 _ w h)
          ])
    | inr e ↦ rw (e, handle_heartbeat) h
  ]

  dispatch-IsWatched :
      (c now : ℕ) (b : List ℕ) (w : Server) → IsWatched w → IsWatched (dispatch json c now b w)
  unfolding dispatch handle_data
  dispatch-IsWatched c now [] w h = h
  dispatch-IsWatched c now (t ∷ b) w h = if-IsWatched (t == 1) (send-IsWatched c 2 [] w h) (
      if-IsWatched (t == 4) (connect-IsWatched c now b w h) (
        if-IsWatched (t == 3) (forward_at-IsWatched (index_bar b) c b w h) (
          if-IsWatched (t == 6) (disconnect-IsWatched c w h)
            (if-IsWatched (t == 7) (beat-IsWatched c now b w h) h))))

  pub message-IsWatched :
      (c now : ℕ) (b : List ℕ) (w : Server)
      → IsWatched w
      → IsWatched (handle_message json c now b w)
  unfolding handle_message
  message-IsWatched c now b w h =
      if-IsWatched (starts_with b relay_magic)
        (dispatch-IsWatched c now (drop (length relay_magic) b) w h) h
