-- ===== src/Events.antt =====
-- The events that the services publish: the constants of backend/app/core/constants.py, the record of
-- backend/app/services/event_types.py and the publication of backend/app/services/event_bus.py.
-- An identifier (a UUID) is a number, which the program only compares and prints.
use midscale.Prelude.Int.{ℤ}
use midscale.Prelude.{ℕ, String, Bool, Option, List, [], ◌∷◌, ◌++◌, if◌then◌else◌}

pub data EventType : Type 0 where
  peer_synced device_online device_offline dns_updated config_changed : EventType
  nat_punch_requested nat_punch_started nat_punch_succeeded nat_punch_failed : EventType
  nat_connectivity_validated : EventType
  relay_requested relay_connected relay_failed relay_expired : EventType
  relay_stats_updated relay_fallback : EventType

-- A value of an event's `data`: the text of a UUID, a text, a number or a flag, each of which may be
-- Python's `None`.
pub data Value : Type 0 where
  ident : ℕ → Value
  text : Option String → Value
  num : Option ℤ → Value
  flag : Bool → Value

pub record Event : Type 0 where
  pub event_type : EventType
  pub payload : List (String × Value)

-- `if event_bus: await event_bus.publish(...)`: with no bus nothing is published. The log is in order
-- of publication.
abbrev pub publish : Bool → Event → List Event → List Event
publish event_bus e log = if event_bus then log ++ e ∷ [] else log
