-- ===== src/RelayServer/Watch.antt =====
-- The server's life as steps, and what a clean-up achieves: `RelayServer` of
-- backend/app/services/relay_server.py.
use midscale.Prelude.{
  ℕ, ◌+◌, ◌≤◌, String, true, none, some, List, [], ◌∷◌, ◌++◌, any, ◌≡◌, refl, ◌∙◌, inl, inr, arith,
  if◌then◌else◌, Option-cases,
}
use midscale.Prelude.Dict.{Key, Dict, key_eq, get, pop, get-pop}
use midscale.RelayServer.{
  Conn, Server, add_valid_token, update_heartbeat, unregister_connection, remove_expired_tokens,
  is_silent, stale_keys, unregister_all,
}
use midscale.RelayServer.Protocol.{Codec, handle_message, connection_lost, stop}
use midscale.RelayServer.Registry.{
  IsWatched, message-IsWatched, lost-IsWatched, heartbeat-IsWatched, unregister-IsWatched,
}

-- What can happen: a session is admitted, a device connects, a message arrives, a connection ends, a
-- device reports through the API, the clean-up runs, and the server stops.
pub data Step (json : Codec) (w : Server) : Server → Type 0 where
  admit : (token session_id : String) → Step json w (add_valid_token token session_id w)
  open_conn : (p : Conn) → Step json w (record w { conns = w.conns ++ p ∷ [] })
  message : (c now : ℕ) (payload : List ℕ) → Step json w (handle_message json c now payload w)
  lose : (c : ℕ) → Step json w (connection_lost json c w)
  report : (d : Key) (now : ℕ) → Step json w (update_heartbeat d now w)
  clean : (now : ℕ) → Step json w (remove_expired_tokens now w)
  halt : Step json w (stop json w)

pub data Reach (json : Codec) (w : Server) : Server → Type 0 where
  here : Reach json w w
  next : {u v : Server} → Reach json w u → Step json u v → Reach json w v

unregister_all-IsWatched :
    (ds : List Key) (w : Server) → IsWatched w → IsWatched (unregister_all ds w)
unfolding unregister_all
unregister_all-IsWatched [] w h = h
unregister_all-IsWatched (d ∷ ds) w h =
    unregister_all-IsWatched ds (unregister_connection d w) (unregister-IsWatched d w h)

Step-IsWatched : (json : Codec) {w v : Server} → Step json w v → IsWatched w → IsWatched v
unfolding add_valid_token remove_expired_tokens stop get
Step-IsWatched json (admit t s) h = record { watched = h.watched }
Step-IsWatched json (open_conn p) h = record { watched = h.watched }
Step-IsWatched json {w = w} (message c now b) h = message-IsWatched json c now b w h
Step-IsWatched json {w = w} (lose c) h = lost-IsWatched json c w h
Step-IsWatched json {w = w} (report d now) h = heartbeat-IsWatched d now w h
Step-IsWatched json {w = w} (clean now) h =
    unregister_all-IsWatched (stale_keys now w.heartbeats) w h
Step-IsWatched json halt h = record { watched = λ d e. refl }

Reach-IsWatched : (json : Codec) {w v : Server} → IsWatched w → Reach json w v → IsWatched v
Reach-IsWatched json h here = h
Reach-IsWatched json h (next r st) = Step-IsWatched json st (Reach-IsWatched json h r)

unregister_all-heartbeats :
    (ds : List Key) (w : Server) (d : Key)
    → get d (unregister_all ds w).heartbeats
      ≡ (if any (λ k. key_eq k d) ds then none else get d w.heartbeats)
unfolding unregister_all
unregister_all-heartbeats [] w d = refl
unregister_all-heartbeats (k ∷ ds) w d =
    unregister_all-heartbeats ds (unregister_connection k w) d
    ∙ ground (arith, get-pop k d w.heartbeats, popped)
  where
    popped : (unregister_connection k w).heartbeats ≡ pop k w.heartbeats
    popped = refl

-- A silent device is among those that the clean-up takes.
stale_keys-silent :
    (now : ℕ) (h : Dict ℕ) (d : Key) (ts : ℕ)
    → get d h ≡ some ts
    → is_silent now ts ≡ true
    → any (λ k. key_eq k d) (stale_keys now h) ≡ true
unfolding get
stale_keys-silent now [] d ts e s = cc
stale_keys-silent now ((k, t) ∷ h) d ts e s = ground (arith, stale_keys-silent now h d ts)

-- From a server on which every registered device has a heartbeat (such as the empty one), after any
-- steps and then a clean-up at the time `now`, a device that is still registered has a heartbeat
-- that is at most 120 seconds old.
pub clean_lem :
    (json : Codec) (w v : Server) (now c : ℕ) (d : Key)
    → IsWatched w
    → Reach json w v
    → get d (remove_expired_tokens now v).connections ≡ some c
    → (ts : ℕ) × (get d (remove_expired_tokens now v).heartbeats ≡ some ts) × (now ≤ ts + 120)
unfolding remove_expired_tokens
clean_lem json w v now c d h r e = elim (Option-cases (get d (unregister_all ds v).heartbeats)) [
  | inl silent ↦ cc (after.watched d silent)
  | inr (ts, beat) ↦ (ts, beat, young ts beat)
]
  where
    ds : List Key
    ds = stale_keys now v.heartbeats

    after : IsWatched (unregister_all ds v)
    after = unregister_all-IsWatched ds v (Reach-IsWatched json h r)

    young : (ts : ℕ) → get d (unregister_all ds v).heartbeats ≡ some ts → now ≤ ts + 120
    young ts beat =
        ground (arith, unregister_all-heartbeats ds v d, stale_keys-silent now v.heartbeats d ts)
