-- ===== src/Config.antt =====
-- From the tables to what a plan is made of: backend/app/services/network_state.py. The text of a UUID
-- and the order in which Python lists a set are arguments.
pub mod Answer
pub mod Build
pub mod Grouping
pub mod Preferred
pub mod Sample
mod Tests
use midscale.Prelude.{
  ℕ, String, Bool, true, false, not, Option, none, some, List, [], ◌∷◌, ◌++◌, ◌&&◌, map, keep, find,
  any, str_eq, ◌==◌, ◌≡◌, if◌then◌else◌,
}
use midscale.Prelude.Sort.{sorted}
use midscale.Endpoints.{DeviceEndpoint}
use midscale.Topology.{DeviceState, NetworkState, comes_first, get_list}
use midscale.Api.{Network, Device, AdvertisedRoute, DnsEntry, Db, Reply, ok, crash, network_of}

-- What the code relies on of `str(uuid)`: two ids with the same text are the same.
pub record UuidText : Type 0 where
  pub str : ℕ → String
  pub str_inj : (a b : ℕ) → str_eq (str a) (str b) ≡ true → a ≡ b

abbrev pub server_name : String
server_name = "__midscale_server__"

-- `scalar_one()`, which raises without a row.
abbrev pub state_of_network : Option Network → Reply NetworkState
state_of_network none = crash
state_of_network (some n) = ok (record { subnet = n.subnet; topology = n.topology })

unfoldable pub build_network_state : (network_id : ℕ) → Db → Reply NetworkState
build_network_state k db = state_of_network (network_of k db)

abbrev pub is_some {ℓ} : {A : Type ℓ} → Option A → Bool
is_some none = false
is_some (some a) = true

-- The rows of an active device with a key and an address.
abbrev pub takes_part : (network_id : ℕ) → Device → Bool
takes_part k d = d.network_id == k && d.is_active && is_some d.public_key && is_some d.ip_address

abbrev pub text_or_empty : Option String → String
text_or_empty none = ""
text_or_empty (some s) = s

-- d[k] = [] if k is not in d, then d[k].append(v)
abbrev pub append_to {ℓ} :
    {A : Type ℓ} → String → A → List (String × List A) → List (String × List A)
append_to k v [] = (k, v ∷ []) ∷ []
append_to k v ((j, vs) ∷ d) =
    let rest = append_to k v d in if str_eq j k then (j, vs ++ v ∷ []) ∷ d else (j, vs) ∷ rest

-- The loop that files each row's value under a key, onto a dictionary.
abbrev pub group {ℓ κ} :
    {A : Type ℓ} {B : Type κ} (key : A → String) (value : A → B)
    → List A
    → List (String × List B)
    → List (String × List B)
group key value [] d = d
group key value (x ∷ xs) d = group key value xs (append_to (key x) (value x) d)

-- An approved and enabled route of the network.
abbrev pub is_in_force : (network_id : ℕ) → AdvertisedRoute → Bool
is_in_force k r = r.network_id == k && r.approved && r.enabled

-- list({e.address for e in entries}) if entries else None
abbrev pub addresses_of :
    (list_set : List String → List String) → List DnsEntry → Option (List String)
addresses_of list_set [] = none
addresses_of list_set (e ∷ es) = some (list_set (map (λ x. x.address) (e ∷ es)))

unfoldable pub build_dns_servers :
    (list_set : List String → List String) (network_id : ℕ) → Db → Option (List String)
build_dns_servers list_set k db =
    addresses_of list_set (keep (λ e. e.network_id == k) db.dns_entries)

module _ (uuid : UuidText) where
  open uuid use {str}

  -- str(x) if x else None
  abbrev pub opt_str : Option ℕ → Option String
  opt_str none = none
  opt_str (some a) = some (str a)

  abbrev pub state_of : Device → DeviceState
  state_of d = record {
    id = str d.id;
    public_key = text_or_empty d.public_key;
    ip_address = text_or_empty d.ip_address;
    dns_enabled = d.dns_enabled;
    exit_node_id = opt_str d.exit_node_id;
  }

  -- The last device with the server's name.
  abbrev pub server_id_of : List Device → Option String → Option String
  server_id_of [] last = last
  server_id_of (d ∷ ds) last =
      server_id_of ds (if str_eq d.name server_name then some (str d.id) else last)

  unfoldable pub build_device_states : (network_id : ℕ) → Db → List DeviceState × Option String
  build_device_states k db =
      let devices = keep (takes_part k) db.devices in
      (map state_of devices, server_id_of devices none)

  unfoldable pub build_routes_by_device :
      (network_id : ℕ) → Db → List String × List (String × List String)
  build_routes_by_device k db =
      let rows = keep (is_in_force k) db.routes in
      (map (λ r. r.prefix) rows, group (λ r. str r.device_id) (λ r. r.prefix) rows [])

  -- Active endpoints of active devices of the network, by priority and then by age.
  abbrev pub is_offered : (network_id : ℕ) → Db → DeviceEndpoint → Bool
  is_offered k db e =
      e.is_active && any (λ d. d.id == e.device_id && (d.network_id == k && d.is_active)) db.devices

  unfoldable pub build_endpoints_by_device :
      (network_id : ℕ) → Db → List (String × List DeviceEndpoint)
  unfolding sorted
  build_endpoints_by_device k db =
      group (λ e. str e.device_id) (λ e. e)
        (sorted comes_first (keep (is_offered k db) db.endpoints)) []
