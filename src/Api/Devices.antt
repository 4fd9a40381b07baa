-- ===== src/Api/Devices.antt =====
-- The handlers of backend/app/api/v1/devices.py: `update_device`, `enroll_device`,
-- `rotate_device_token`, `revoke_device` and `_publish_config_change`; Api/Admission has those that admit
-- devices by a key. Ids and random texts are arguments, and so is whether there are an event bus and a
-- WebSocket manager, to which messages are handed over in the order of the list. The counter
-- DEVICE_ENROLLMENT is left out.
use midscale.Prelude.{
  ℕ, String, Bool, true, false, not, Option, none, some, List, [], ◌∷◌, ◌++◌, ◌&&◌, map, keep, any,
  update_first, str_eq, ◌==◌, if◌then◌else◌,
}
use midscale.Prelude.Int.{pos}
use midscale.Events.{Event, config_changed, ident, text, num}
use midscale.Api.{
  User, Network, Device, Db, Reply, ok, crash, ◌>>=◌, ◌>>◌, require, found, device_of, network_of,
  owns,
}
use midscale.Api.Auth.{Passwords, generate_device_token, get_current_device, token_of}
use midscale.Config.Build.{Environment, build_config_v2}
use midscale.Config.Answer.{DeviceConfigV2Response}

pub record World : Type 0 where
  pub db : Db
  pub events : List Event
  pub messages : List (ℕ × String)

abbrev pub with_db : Db → World → World
with_db db w = record w { db = db }

abbrev pub log : String → ℕ → World → World
log action target w = record w {
  db = record w.db { audit = w.db.audit ++ record { action = action; target_id = target } ∷ [] };
}

abbrev pub has_id : ℕ → Device → Bool
has_id k d = d.id == k

abbrev pub update_row : ℕ → (Device → Device) → World → World
update_row k f w = record w {
  db = record w.db { devices = update_first (has_id k) f w.db.devices };
}

abbrev pub or_keep {ℓ} : {A : Type ℓ} → Option A → A → A
or_keep none old = old
or_keep (some a) old = a

abbrev pub or_keep_some {ℓ} : {A : Type ℓ} → Option A → Option A → Option A
or_keep_some none old = old
or_keep_some (some a) old = some a

-- The owner of the device's network, or a superuser; 403 too where the network is missing.
abbrev pub owned : User → Option Network → Bool
owned user none = user.is_superuser
owned user (some n) = owns user n

abbrev pub owned_device : ℕ → User → Db → Reply Device
owned_device k user db = do
  d ← found (device_of k db) 404
  require (owned user (network_of d.network_id db)) 403
  ok d

-- A reference that the foreign key accepts.
abbrev pub is_device : Option ℕ → Db → Bool
is_device none db = true
is_device (some k) db = any (has_id k) db.devices

abbrev pub referenced : Bool → Reply (Unit {0})
referenced true = ok tt
referenced false = crash

pub record DeviceUpdate : Type 0 where
  pub name : Option String
  pub dns_enabled : Option Bool
  pub is_active : Option Bool
  pub tags : Option (List String)
  pub enrollment_status : Option String
  pub exit_node_id : Option ℕ

abbrev pub with_update : DeviceUpdate → Device → Device
with_update req d = record d {
  name = or_keep req.name d.name;
  dns_enabled = or_keep req.dns_enabled d.dns_enabled;
  is_active = or_keep req.is_active d.is_active;
  tags = or_keep_some req.tags d.tags;
  enrollment_status = or_keep req.enrollment_status d.enrollment_status;
  exit_node_id = or_keep_some req.exit_node_id d.exit_node_id;
}

unfoldable pub update_device : (device_id : ℕ) → DeviceUpdate → User → World → Reply World
update_device k req user w = do
  d ← owned_device k user w.db
  referenced (is_device req.exit_node_id w.db)
  ok (log "device.update" k (update_row k (with_update req) w))

abbrev pub truthy_text : Option String → Bool
truthy_text none = false
truthy_text (some s) = not (str_eq s "")

module _ (lib : Passwords) where
  -- The row of a device that enrolls with a key of its own.
  abbrev pub enrolled :
      (public_key : String) (ip_address : Option String) (prefix secret : String) (now : ℕ)
      → Device
      → Device
  enrolled public_key ip_address prefix secret now d = record d {
    public_key = some public_key;
    ip_address = if truthy_text ip_address then ip_address else d.ip_address;
    device_token_hash = some (generate_device_token lib prefix secret).2;
    device_token_prefix = some prefix;
    enrollment_status = "active";
    enrolled_at = some now;
  }

  unfoldable pub enroll_device :
      (device_id : ℕ) (public_key : String) (ip_address : Option String) (prefix secret : String)
      (now : ℕ)
      → User
      → World
      → Reply (World × String)
  unfolding generate_device_token
  enroll_device k public_key ip_address prefix secret now user w = do
    d ← owned_device k user w.db
    require d.is_node_owned 400
    require (str_eq d.enrollment_status "pending") 400
    let w' = update_row k (enrolled public_key ip_address prefix secret now) w
    ok (log "device.enroll" k w', token_of prefix secret)

  -- The prefix is kept where the row has one.
  abbrev pub prefix_of : Option String → (drawn : String) → String
  prefix_of none drawn = drawn
  prefix_of (some p) drawn = if str_eq p "" then drawn else p

  unfoldable pub rotate_device_token :
      (device_id : ℕ) (token prefix secret : String) → World → Reply (World × String)
  unfolding get_current_device
  rotate_device_token k token prefix secret w = do
    d ← get_current_device lib token w.db
    require (d.id == k) 403
    require (str_eq d.enrollment_status "active") 400
    let p = prefix_of d.device_token_prefix prefix
    ok (
      update_row k
          (λ d. record d {
            device_token_hash = some (lib.hash_password secret);
            device_token_prefix = some p;
          })
          w,
      token_of p secret,
    )

module _ (env : Environment) (event_bus ws_manager : Bool) where
  abbrev pub change_event : Device → DeviceConfigV2Response → (reason : String) → Event
  change_event d config reason = record {
    event_type = config_changed;
    payload =
        ("device_id", ident d.id)
        ∷ ("network_id", ident d.network_id)
        ∷ ("revision", num (some (pos config.revision)))
        ∷ ("hash", text (some config.hash))
        ∷ ("reason", text (some reason))
        ∷ [];
  }

  abbrev pub is_peer_of : Device → Device → Bool
  is_peer_of d p = p.network_id == d.network_id && p.is_active && not (p.id == d.id)

  -- The event, and a message to each other active device of the network; nothing where the
  -- configuration cannot be built.
  abbrev pub announce : Device → (reason : String) → Reply DeviceConfigV2Response → World → World
  announce d reason (ok config) w = record w {
    events = w.events ++ change_event d config reason ∷ [];
    messages =
        w.messages
        ++ (if ws_manager
            then map (λ p. (p.id, reason)) (keep (is_peer_of d) w.db.devices)
            else []);
  }
  announce d reason _ w = w

  unfoldable pub publish_config_change : (now : ℕ) → Device → (reason : String) → World → World
  publish_config_change now d reason w =
      if event_bus then announce d reason (build_config_v2 env now d w.db) w else w

  -- The row is read before it changes: only its id and network are used afterwards.
  unfoldable pub revoke_device : (device_id now : ℕ) → User → World → Reply World
  unfolding publish_config_change
  revoke_device k now user w = do
    d ← owned_device k user w.db
    require (not (str_eq d.enrollment_status "revoked")) 400
    let revoked : Device → Device =
        λ d. record d { enrollment_status = "revoked"; is_active = false; revoked_at = some now }
    let w' = update_row k revoked w
    ok (log "device.revoke" k (publish_config_change now (revoked d) "device.revoked" w'))
