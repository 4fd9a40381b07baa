-- ===== src/Topology.antt =====
-- Peer plans: the types and helpers of backend/app/services/topology.py. The three generators are in
-- the modules Star, Mesh and Hybrid below. Dictionaries are association lists, looked up from the left.
pub mod Star
pub mod Mesh
pub mod Hybrid
pub mod Exit
pub mod Peers
mod Tests
use Prim.Native.String.{◌++◌ as append}
use midscale.Prelude.{
  ℕ, String, Bool, true, false, not, Option, none, some, List, [], ◌∷◌, ◌++◌, ◌&&◌, ◌||◌, map, keep,
  find, any, str_eq, if◌then◌else◌,
}
use midscale.Prelude.Int.{ℤ, pos, neg, eq_ℤ, ltb_ℤ}
use midscale.Prelude.Sort.{sorted}
use midscale.Endpoints.{DeviceEndpoint}
use midscale.Scoring.{lex_above, first}

pub data TopologyType : Type 0 where
  star mesh hybrid : TopologyType

pub record DeviceState : Type 0 where
  pub id : String
  pub public_key : String
  pub ip_address : String
  pub dns_enabled : Bool
  pub exit_node_id : Option String

pub record NetworkState : Type 0 where
  pub subnet : String
  pub topology : Option String

pub record PeerPlan : Type 0 where
  pub public_key : String
  pub allowed_ips : List String
  pub endpoint : Option String
  pub endpoint_port : Option ℤ
  pub persistent_keepalive : Option ℕ
  pub relay_fallback : Bool

pub record TopologyPlan : Type 0 where
  pub device_id : String
  pub address : String
  pub subnet : String
  pub dns_servers : Option (List String)
  pub peers : List PeerPlan
  pub mtu : Option ℕ

-- `settings.wireguard_server_endpoint` and `settings.wireguard_port`.
pub record Settings : Type 0 where
  pub wireguard_server_endpoint : String
  pub wireguard_port : ℤ

-- What a generator is given beside the device: the active devices, the network, the id of the hub,
-- and the approved routes and the endpoints by device id.
pub record Inputs : Type 0 where
  pub settings : Settings
  pub all_devices : List DeviceState
  pub network : NetworkState
  pub server_device_id : String
  pub routes_by_device : List (String × List String)
  pub endpoints_by_device : List (String × List DeviceEndpoint)

-- A text is true if it is not empty, a number if it is not 0.
abbrev pub truthy : String → Bool
truthy s = not (str_eq s "")

-- `a or b`, on texts and on numbers that may be absent.
abbrev pub or_text : Option String → Option String → Option String
or_text none b = b
or_text (some a) b = if truthy a then some a else b

abbrev pub or_num : Option ℤ → Option ℤ → Option ℤ
or_num none b = b
or_num (some a) b = if eq_ℤ a (pos 0) then b else some a

-- settings.wireguard_server_endpoint or "localhost"
abbrev pub server_endpoint : Inputs → String
server_endpoint i =
    if truthy i.settings.wireguard_server_endpoint
    then i.settings.wireguard_server_endpoint
    else "localhost"

-- d.get(k, [])
abbrev pub get_list {ℓ} : {A : Type ℓ} → List (String × List A) → String → List A
get_list [] k = []
get_list ((j, v) ∷ d) k = if str_eq j k then v else get_list d k

abbrev pub seen_key : Option ℕ → ℤ
seen_key none = pos 0
seen_key (some t) = neg (pos t)

-- The key `(-priority, -last_seen)`, in ascending order.
abbrev pub comes_first : DeviceEndpoint → DeviceEndpoint → Bool
comes_first e f =
    lex_above (neg f.priority) (neg e.priority)
      (ltb_ℤ (seen_key e.last_seen) (seen_key f.last_seen))

unfoldable pub sort_endpoints : List DeviceEndpoint → List DeviceEndpoint
unfolding sorted
sort_endpoints eps = sorted comes_first eps

unfoldable pub best_endpoint : List DeviceEndpoint → Option String × Option ℤ
unfolding sort_endpoints
best_endpoint eps = elim (first (sort_endpoints (keep (λ e. e.is_active) eps))) [
  | none ↦ (none, none)
  | some best ↦ (some best.endpoint, some best.port)
]

-- f"{ip}/32"
abbrev pub host_route : DeviceState → String
host_route d = append d.ip_address "/32"

-- The device's own address and the routes that it advertises.
abbrev pub routes_to : Inputs → DeviceState → List String
routes_to i other = host_route other ∷ get_list i.routes_by_device other.id

-- PeerPlan(public_key=..., allowed_ips=...): the other fields at their defaults.
abbrev pub plain_peer : String → List String → PeerPlan
plain_peer key ips = record {
  public_key = key;
  allowed_ips = ips;
  endpoint = none;
  endpoint_port = none;
  persistent_keepalive = none;
  relay_fallback = false;
}

abbrev pub exit_ips : List String
exit_ips = "0.0.0.0/0" ∷ "::/0" ∷ []

abbrev pub has_key : String → PeerPlan → Bool
has_key k p = str_eq p.public_key k

-- The exit device is looked up by id, and joins the peers unless its key is empty or is there already.
abbrev pub add_exit_device : Option DeviceState → List PeerPlan → List PeerPlan
add_exit_device none peers = peers
add_exit_device (some ed) peers =
    if truthy ed.public_key && not (any (has_key ed.public_key) peers)
    then peers ++ plain_peer ed.public_key exit_ips ∷ []
    else peers

-- The block "Exit node peer", which ends each of the three generators.
unfoldable pub add_exit_node : Inputs → DeviceState → List PeerPlan → List PeerPlan
add_exit_node i device peers = elim device.exit_node_id [
  | none ↦ peers
  | some x ↦
      if truthy x && not (str_eq x i.server_device_id)
      then add_exit_device (first (keep (λ d. str_eq d.id x) i.all_devices)) peers
      else peers
]

-- The loop `for other in all_devices` that passes over the device itself and appends one peer each.
module _ (peer : DeviceState → PeerPlan) (device : DeviceState) where
  unfoldable pub other_peers : List DeviceState → List PeerPlan
  other_peers [] = []
  other_peers (other ∷ rest) =
      let later = other_peers rest in
      if str_eq other.id device.id then later else peer other ∷ later

abbrev pub plan_with : Inputs → DeviceState → List PeerPlan → TopologyPlan
plan_with i device peers = record {
  device_id = device.id;
  address = device.ip_address;
  subnet = i.network.subnet;
  dns_servers = none;
  peers = peers;
  mtu = none;
}
