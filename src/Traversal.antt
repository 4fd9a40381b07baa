-- ===== src/Traversal.antt =====
-- NAT traversal sessions: backend/app/services/nat.py, with the row of backend/app/models/nat_session.py.
-- The database is the two tables below; a call that raises leaves them as they were at its start
-- (`get_session` in backend/app/database.py rolls back), but metrics and events stay.
pub mod Promote
pub mod Sessions
pub mod Results
pub mod Fallback
pub mod Preferred
pub mod Lifecycle
pub mod Gauge
mod Tests
use midscale.Prelude.{
  ℕ, ◌+◌, ◌*◌, ◌≤◌, String, Bool, true, false, Option, none, some, List, [], ◌∷◌, ◌++◌, ◌&&◌, ◌||◌,
  length, keep, find, update_where, update_first, ltb, leb, ◌==◌, if◌then◌else◌,
}
use midscale.Prelude.Int.{ℤ, pos, ◌+ℤ◌, ◌-ℤ◌}
use midscale.Endpoints.{DeviceEndpoint}
use midscale.Events
use midscale.Events.{Event, ident, text, num, flag, publish, nat_punch_requested, nat_punch_started}
use midscale.Relay
use midscale.RelayServer.{Server}

-- The texts that the code writes into the column `state`, or looks for there (`punching`).
pub data NatState : Type 0 where
  pending coordinating punching connected failed expired : NatState

-- `selected_candidate`.
pub record Candidate : Type 0 where
  pub endpoint : Option String
  pub port : Option ℤ
  pub latency_ms : Option ℤ

-- `extra_metadata`: the keys that the API writes when it makes a session, and the two that a failed
-- punch writes. An absent key is `none`.
pub record Metadata : Type 0 where
  pub initiator_endpoint : Option String
  pub initiator_port : Option ℤ
  pub error : Option String
  pub failure_count : Option ℕ

abbrev pub no_metadata : Metadata
no_metadata = record {
  initiator_endpoint = none;
  initiator_port = none;
  error = none;
  failure_count = none;
}

pub record NatSession : Type 0 where
  pub id : ℕ
  pub initiator_device_id : ℕ
  pub target_device_id : ℕ
  pub state : NatState
  pub selected_candidate : Option Candidate
  pub connectivity_established : Bool
  pub extra_metadata : Option Metadata
  pub created_at : ℕ
  pub updated_at : ℕ
  pub expires_at : ℕ

-- The tables `nat_sessions` and `device_endpoints`, the rows of `devices` as id and network id, the
-- gauge NAT_SESSION_ACTIVE, the counters by label, the relay service and the relay server, and what
-- this service has published.
pub record World : Type 0 where
  pub sessions : List NatSession
  pub endpoints : List DeviceEndpoint
  pub devices : List (ℕ × ℕ)
  pub session_active : ℤ
  pub punch_success : ℕ
  pub punch_failed : ℕ
  pub connectivity_success : ℕ
  pub connectivity_failed : ℕ
  pub score_updates : ℕ
  pub relay : Relay.World
  pub relay_server : Option Server
  pub events : List Event

abbrev pub session_timeout_minutes : ℕ
session_timeout_minutes = 5

abbrev pub has_id : ℕ → NatSession → Bool
has_id k s = s.id == k

-- The fields of an event that names a session and its two devices.
abbrev pub parties : NatSession → List (String × Events.Value) → List (String × Events.Value)
parties s rest =
    ("session_id", ident s.id)
    ∷ ("initiator_device_id", ident s.initiator_device_id)
    ∷ ("target_device_id", ident s.target_device_id)
    ∷ rest

abbrev pub or_empty : Option Metadata → Metadata
or_empty none = no_metadata
or_empty (some m) = m

unfoldable pub create_nat_session :
    (new_id now : ℕ) (initiator_device_id target_device_id : ℕ) (event_bus : Bool)
    (extra_metadata : Option Metadata)
    → World
    → NatSession × World
create_nat_session new_id now initiator target event_bus extra w =
    let row : NatSession = record {
      id = new_id;
      initiator_device_id = initiator;
      target_device_id = target;
      state = pending;
      selected_candidate = none;
      connectivity_established = false;
      extra_metadata = some (or_empty extra);
      created_at = now;
      updated_at = now;
      expires_at = now + session_timeout_minutes * 60;
    } in
    (
      row,
      record w {
        sessions = w.sessions ++ row ∷ [];
        session_active = w.session_active +ℤ pos 1;
        events =
            publish event_bus
              (record { event_type = nat_punch_requested; payload = parties row [] }) w.events;
      },
    )

abbrev pub is_pending : NatState → Bool
is_pending pending = true
is_pending _ = false

-- The query of `start_punch`: this id, still pending, not past its deadline.
abbrev pub can_start : ℕ → ℕ → NatSession → Bool
can_start k now s = has_id k s && (is_pending s.state && ltb now s.expires_at)

abbrev pub started : ℕ → NatSession → NatSession
started now s = record s { state = coordinating; updated_at = now }

unfoldable pub start_punch :
    (nat_session_id now : ℕ) (event_bus : Bool) → World → Option NatSession × World
start_punch k now event_bus w = elim (find (can_start k now) w.sessions) [
  | none ↦ (none, w)
  | some s ↦ (
    some (started now s),
    record w {
      sessions = update_first (can_start k now) (started now) w.sessions;
      events =
          publish event_bus (record { event_type = nat_punch_started; payload = parties s [] })
            w.events;
    },
  )
]

-- The states that still wait for a result.
abbrev pub is_open : NatState → Bool
is_open pending = true
is_open coordinating = true
is_open punching = true
is_open _ = false

abbrev pub is_stale : ℕ → NatSession → Bool
is_stale now s = is_open s.state && leb s.expires_at now

unfoldable pub expire_stale_sessions : (now : ℕ) → World → ℕ × World
expire_stale_sessions now w =
    let stale : ℕ = length (keep (is_stale now) w.sessions) in
    (
      stale,
      record w {
        sessions =
            update_where (is_stale now) (λ s. record s { state = expired; updated_at = now })
              w.sessions;
        session_active = if stale == 0 then w.session_active else w.session_active -ℤ pos stale;
      },
    )

abbrev pub get_session_by_id : ℕ → World → Option NatSession
get_session_by_id k w = find (has_id k) w.sessions
