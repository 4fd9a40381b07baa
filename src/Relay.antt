-- ===== src/Relay.antt =====
-- Relay sessions: backend/app/services/relay.py, with the row of backend/app/models/relay_session.py
-- and the metrics that the service keeps. A method that returns `None` returns `none` here.
pub mod Run
pub mod Gauge
pub mod Lifecycle
mod Tests
use midscale.Prelude.{
  ℕ, ◌+◌, String, Bool, true, false, Option, none, some, List, [], ◌∷◌, ◌++◌, ◌&&◌, ◌||◌, ◌*◌,
  length, keep, find, count, update_where, update_first, leb, ◌==◌, if◌then◌else◌,
}
use midscale.Prelude.Int.{ℤ, pos, ◌+ℤ◌, ◌-ℤ◌}
use midscale.Events
use midscale.Events.{
  EventType, Event, ident, text, num, publish, relay_requested, relay_connected, relay_failed,
  relay_expired, relay_stats_updated,
}

-- The texts that the code writes into the column `state`.
pub data RelayState : Type 0 where
  pending active expired failed : RelayState

-- A row of `relay_sessions`. Times are whole seconds; a nullable column is an option.
pub record RelaySession : Type 0 where
  pub id : ℕ
  pub initiator_device_id : ℕ
  pub target_device_id : ℕ
  pub relay_region : String
  pub relay_node : String
  pub relay_token : String
  pub state : RelayState
  pub bytes_tx : Option ℤ
  pub bytes_rx : Option ℤ
  pub connected_at : Option ℕ
  pub expires_at : Option ℕ
  pub created_at : ℕ
  pub updated_at : ℕ

-- The table, the gauge RELAY_CONNECTIONS_ACTIVE, the counters RELAY_SESSIONS_TOTAL by label and
-- RELAY_FALLBACK_TOTAL, and what has been published.
pub record World : Type 0 where
  pub sessions : List RelaySession
  pub connections_active : ℤ
  pub total_pending : ℕ
  pub total_active : ℕ
  pub total_expired : ℕ
  pub fallback_total : ℕ
  pub events : List Event

abbrev pub relay_session_timeout_hours : ℕ
relay_session_timeout_hours = 24

abbrev pub is_active : RelayState → Bool
is_active active = true
is_active _ = false

abbrev pub is_pending : RelayState → Bool
is_pending pending = true
is_pending _ = false

-- RelaySession.id == k
abbrev pub has_id : ℕ → RelaySession → Bool
has_id k s = s.id == k

-- `x or 0` on a nullable number.
abbrev pub or_zero : Option ℤ → ℤ
or_zero none = pos 0
or_zero (some n) = n

-- What `secrets`, `uuid4` and the clock hand to the call is an argument.
unfoldable pub create_relay_session :
    (new_id now : ℕ) (token : String) (event_bus : Bool) (initiator_device_id target_device_id : ℕ)
    (relay_region relay_node : String)
    → World
    → RelaySession × World
create_relay_session new_id now token event_bus initiator target region node w =
    let row : RelaySession = record {
      id = new_id;
      initiator_device_id = initiator;
      target_device_id = target;
      relay_region = region;
      relay_node = node;
      relay_token = token;
      state = pending;
      bytes_tx = some (pos 0);
      bytes_rx = some (pos 0);
      connected_at = none;
      expires_at = some (now + relay_session_timeout_hours * 3600);
      created_at = now;
      updated_at = now;
    } in
    let requested : Event = record {
      event_type = relay_requested;
      payload =
          ("session_id", ident new_id)
          ∷ ("initiator_device_id", ident initiator)
          ∷ ("target_device_id", ident target)
          ∷ ("relay_region", text (some region))
          ∷ ("relay_node", text (some node))
          ∷ [];
    } in
    (
      row,
      record w {
        sessions = w.sessions ++ row ∷ [];
        total_pending = w.total_pending + 1;
        events = publish event_bus requested w.events;
      },
    )

-- The query is by id and by state, the write is to the row it returned. The deadline is not looked at.
abbrev pub awaits : ℕ → RelaySession → Bool
awaits k s = has_id k s && is_pending s.state

abbrev pub activated : ℕ → RelaySession → RelaySession
activated now s = record s { state = active; connected_at = some now; updated_at = now }

-- The fields of an event that names a session and its two devices.
abbrev pub parties : RelaySession → List (String × Events.Value) → List (String × Events.Value)
parties s rest =
    ("session_id", ident s.id)
    ∷ ("initiator_device_id", ident s.initiator_device_id)
    ∷ ("target_device_id", ident s.target_device_id)
    ∷ rest

unfoldable pub activate_relay_session :
    (relay_session_id now : ℕ) (event_bus : Bool) → World → Option RelaySession × World
activate_relay_session k now event_bus w = elim (find (awaits k) w.sessions) [
  | none ↦ (none, w)
  | some s ↦ (
    some (activated now s),
    record w {
      sessions = update_first (awaits k) (activated now) w.sessions;
      connections_active = w.connections_active +ℤ pos 1;
      total_active = w.total_active + 1;
      events =
          publish event_bus
            (record {
              event_type = relay_connected;
              payload = parties s (("relay_node", text (some s.relay_node)) ∷ []);
            })
            w.events;
    },
  )
]

-- `expire_relay_session` and `fail_relay_session` end a session in whatever state it is; the gauge
-- falls only if it was active.
abbrev pub ended : RelayState → ℕ → RelaySession → RelaySession
ended end now s = record s { state = end; updated_at = now }

abbrev pub end_session : RelayState → EventType → ℕ → ℕ → Bool → World → Option RelaySession × World
end_session end kind k now event_bus w = elim (find (has_id k) w.sessions) [
  | none ↦ (none, w)
  | some s ↦ (
    some (ended end now s),
    record w {
      sessions = update_first (has_id k) (ended end now) w.sessions;
      connections_active =
          if is_active s.state then w.connections_active -ℤ pos 1 else w.connections_active;
      events = publish event_bus (record { event_type = kind; payload = parties s [] }) w.events;
    },
  )
]

unfoldable pub expire_relay_session :
    (relay_session_id now : ℕ) (event_bus : Bool) → World → Option RelaySession × World
expire_relay_session k now event_bus w = end_session expired relay_expired k now event_bus w

unfoldable pub fail_relay_session :
    (relay_session_id now : ℕ) (event_bus : Bool) → World → Option RelaySession × World
fail_relay_session k now event_bus w = end_session failed relay_failed k now event_bus w

abbrev pub counted : (bytes_tx bytes_rx : ℤ) (now : ℕ) → RelaySession → RelaySession
counted tx rx now s = record s {
  bytes_tx = some (or_zero s.bytes_tx +ℤ tx);
  bytes_rx = some (or_zero s.bytes_rx +ℤ rx);
  updated_at = now;
}

unfoldable pub update_relay_stats :
    (relay_session_id : ℕ) (bytes_tx bytes_rx : ℤ) (now : ℕ) (event_bus : Bool)
    → World
    → Option RelaySession × World
update_relay_stats k tx rx now event_bus w = elim (find (has_id k) w.sessions) [
  | none ↦ (none, w)
  | some s ↦ (
    some (counted tx rx now s),
    record w {
      sessions = update_first (has_id k) (counted tx rx now) w.sessions;
      events =
          publish event_bus
            (record {
              event_type = relay_stats_updated;
              payload =
                  ("session_id", ident s.id)
                  ∷ ("bytes_tx", num (some (or_zero s.bytes_tx +ℤ tx)))
                  ∷ ("bytes_rx", num (some (or_zero s.bytes_rx +ℤ rx)))
                  ∷ [];
            })
            w.events;
    },
  )
]

-- RelaySession.expires_at <= now, which a NULL never passes.
abbrev pub is_due : ℕ → Option ℕ → Bool
is_due now none = false
is_due now (some t) = leb t now

abbrev pub is_stale : ℕ → RelaySession → Bool
is_stale now s = (is_pending s.state || is_active s.state) && is_due now s.expires_at

unfoldable pub cleanup_expired_relays : (now : ℕ) → World → ℕ × World
cleanup_expired_relays now w =
    let stale : List RelaySession = keep (is_stale now) w.sessions in
    let active_count : ℕ = count (λ s. is_active s.state) stale in
    (
      length stale,
      record w {
        sessions = update_where (is_stale now) (ended expired now) w.sessions;
        connections_active =
            if active_count == 0
            then w.connections_active
            else w.connections_active -ℤ pos active_count;
        total_expired = w.total_expired + length stale;
      },
    )

abbrev pub get_relay_session_by_id : ℕ → World → Option RelaySession
get_relay_session_by_id k w = find (has_id k) w.sessions

unfoldable pub auto_create_relay_fallback :
    (new_id now : ℕ) (token : String) (event_bus : Bool) (initiator_device_id target_device_id : ℕ)
    → World
    → RelaySession × World
unfolding create_relay_session
auto_create_relay_fallback new_id now token event_bus initiator target w =
    let (row, w') =
      create_relay_session new_id now token event_bus initiator target "default" "relay0" w in
    (row, record w' { fallback_total = w'.fallback_total + 1 })
