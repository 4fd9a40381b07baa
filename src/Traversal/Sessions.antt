-- ===== src/Traversal/Sessions.antt =====
-- The results of a punch: `record_punch_result`, `validate_connectivity` and `_publish_config_changed`
-- of backend/app/services/nat.py. `build_config_v2` of backend/app/services/wireguard.py only reads
-- the tables and is an argument: its revision and hash for a device, or none where it raises.
-- SQLAlchemy does not see a write into the dict of a plain JSON column; what it does with such a
-- write is an argument too (`tracks`), true if it saves the dict.
use midscale.Prelude.{
  ℕ, ◌+◌, String, Bool, true, false, Option, none, some, List, [], ◌∷◌, ◌++◌, update_first,
  if◌then◌else◌, ◌==◌,
}
use midscale.Prelude.Int.{ℤ, pos, eq_ℤ}
use midscale.Events.{
  Event, ident, text, num, publish, nat_punch_succeeded, relay_fallback, config_changed,
}
use midscale.Relay.{auto_create_relay_fallback}
use midscale.RelayServer.{Server, add_valid_token}
use midscale.Topology.{truthy}
use midscale.Traversal.{
  connected, failed, Metadata, NatSession, World, no_metadata, has_id, parties,
}
use midscale.Traversal.Promote.{Promotion, multiple_results_found, result, promote_endpoint}

-- What the call takes from outside the service: the clock, the id and the token of a relay session
-- that it may have to make (`uuid4`, `secrets`), the bus, the text of an id, and the two
-- arguments of the comment above.
pub record Env : Type 0 where
  pub now : ℕ
  pub new_id : ℕ
  pub token : String
  pub event_bus : Bool
  pub tracks : Bool
  pub str : ℕ → String
  pub build_config_v2 : World → ℕ → Option (String × String)

-- A method raises or returns.
pub data Outcome (A : Type 0) : Type 0 where
  raised : Outcome A
  returned : A → Outcome A

-- The network of a device, from the table of devices.
abbrev pub network_of : List (ℕ × ℕ) → ℕ → Option ℕ
network_of [] d = none
network_of ((i, n) ∷ rows) d = if i == d then some n else network_of rows d

-- The body of the loop over the two devices. An exception in it is dropped; an empty revision or
-- hash is left out of the event. The `reason` is a fixed text and the id of the session.
abbrev pub config_event : ℕ → ℕ → ℕ → String × String → Event
config_event d n k (revision, hash) = record {
  event_type = config_changed;
  payload =
      ("network_id", ident n)
        ∷ ("reason", ident k)
        ∷ ("device_id", ident d)
        ∷ (if truthy revision then ("revision", text (some revision)) ∷ [] else [])
      ++ (if truthy hash then ("hash", text (some hash)) ∷ [] else []);
}

abbrev pub config_of : Option ℕ → Option (String × String) → ℕ → ℕ → List Event → List Event
config_of none c d k log = log
config_of (some n) none d k log = log
config_of (some n) (some c) d k log = log ++ config_event d n k c ∷ []

abbrev pub tell : Env → NatSession → ℕ → World → World
tell env s d w = record w {
  events = config_of (network_of w.devices d) (env.build_config_v2 w d) d s.id w.events;
}

unfoldable pub publish_config_changed : Env → NatSession → World → World
publish_config_changed env s w =
    if env.event_bus then tell env s s.target_device_id (tell env s s.initiator_device_id w) else w

-- `if selected_endpoint and selected_port`.
abbrev pub chosen : Option String → Option ℤ → Option (String × ℤ)
chosen none port = none
chosen (some e) none = none
chosen (some e) (some p) = if truthy e then (if eq_ℤ p (pos 0) then none else some (e, p)) else none

-- Writes to the row that the query returned.
abbrev pub save : ℕ → (NatSession → NatSession) → World → World
save k f w = record w { sessions = update_first (has_id k) f w.sessions }

abbrev pub connected_by : Option String → Option ℤ → Option ℤ → ℕ → NatSession → NatSession
connected_by endpoint port latency now s = record s {
  state = connected;
  connectivity_established = true;
  selected_candidate = some (record { endpoint = endpoint; port = port; latency_ms = latency });
  updated_at = now;
}

-- A promotion that raises takes the row back with it; one that returns is followed by the events.
abbrev pub after_promotion : Env → NatSession → World → Promotion × World → Promotion × World
after_promotion env s w (multiple_results_found, w') = (multiple_results_found, w)
after_promotion env s w (result score preferred, w') =
    (result score preferred, publish_config_changed env s w')

-- The row, its metrics and its event; then the promotion, if an endpoint and a port were given.
abbrev pub promote_chosen :
    Env → NatSession → Option (String × ℤ) → Option ℤ → World → World → Promotion × World
promote_chosen env s none latency before w = (result (pos 0) false, w)
promote_chosen env s (some (e, p)) latency before w =
    after_promotion env s before (promote_endpoint s.target_device_id e p latency env.now w)

-- The answer of `record_punch_result` is the row.
abbrev pub answer_row : NatSession → Promotion × World → Outcome (Option NatSession) × World
answer_row s (multiple_results_found, w) = (raised, w)
answer_row s (result score preferred, w) = (returned (some s), w)

unfoldable pub punch_succeeded :
    Env
    → Option String
    → Option ℤ
    → Option ℤ
    → NatSession
    → World
    → Outcome (Option NatSession) × World
unfolding publish_config_changed promote_endpoint
punch_succeeded env endpoint port latency s w =
    let s' = connected_by endpoint port latency env.now s in
    let noted : World = record w {
      punch_success = w.punch_success + 1;
      events =
          publish env.event_bus
            (record {
              event_type = nat_punch_succeeded;
              payload = parties s (
                  ("selected_endpoint", text endpoint)
                  ∷ ("selected_port", num port)
                  ∷ ("latency_ms", num latency)
                  ∷ []);
            })
            w.events;
    } in
    answer_row s' (
      promote_chosen env s (chosen endpoint port) latency noted
        (save s.id (connected_by endpoint port latency env.now) noted))

abbrev pub failures : Metadata → ℕ
failures m = elim m.failure_count [ none ↦ 0 | some n ↦ n ]

abbrev pub metadata_of : Option Metadata → Metadata
metadata_of none = no_metadata
metadata_of (some m) = m

-- The dict after the two writes into it.
abbrev pub with_failure : Option String → Option Metadata → Metadata
with_failure error m = record (metadata_of m) {
  error = error;
  failure_count = some (failures (metadata_of m) + 1);
}

-- What the table holds afterwards: a dict that was assigned to the attribute is saved with what was
-- written into it since, one that was there already only if the write is seen.
abbrev pub stored : Bool → Option String → Option Metadata → Option Metadata
stored tracks error none = some (with_failure error none)
stored tracks error (some m) = if tracks then some (with_failure error (some m)) else some m

abbrev pub failed_by : Bool → Option String → ℕ → NatSession → NatSession
failed_by tracks error now s = record s {
  state = failed;
  extra_metadata = stored tracks error s.extra_metadata;
  updated_at = now;
}

-- The relay server, if it runs, learns the token of the new relay session.
abbrev pub tell_relay_server : String → String → Option Server → Option Server
tell_relay_server token id none = none
tell_relay_server token id (some server) = some (add_valid_token token id server)

-- The second failure and every later one make a relay session; the relay service publishes on the
-- same bus.
unfoldable pub fall_back : Env → NatSession → World → World
unfolding auto_create_relay_fallback
fall_back env s w =
    let (row, relay) =
      auto_create_relay_fallback env.new_id env.now env.token env.event_bus s.initiator_device_id
        s.target_device_id w.relay in
    record w {
      relay = relay;
      relay_server =
          if env.event_bus
          then tell_relay_server row.relay_token (env.str row.id) w.relay_server
          else w.relay_server;
      events =
          publish env.event_bus
            (record {
              event_type = relay_fallback;
              payload =
                  ("nat_session_id", ident s.id)
                  ∷ ("relay_session_id", ident row.id)
                  ∷ ("initiator_device_id", ident s.initiator_device_id)
                  ∷ ("target_device_id", ident s.target_device_id)
                  ∷ [];
            })
            w.events;
    }

-- What follows the threshold.
unfoldable pub fall_back_if : Bool → Env → NatSession → World → World
fall_back_if true env s w = fall_back env s w
fall_back_if false env s w = w
