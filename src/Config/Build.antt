-- ===== src/Config/Build.antt =====
-- `build_config_v2` of backend/app/services/wireguard.py with the schemas that it fills,
-- backend/app/schemas/device.py. The settings, the hash of the configuration (the library hashlib on a
-- JSON text) and the length of a subnet's prefix (`ipaddress`) are arguments.
use Prim.Native.String.{◌++◌ as append}
use midscale.Prelude.{
  ℕ, String, Bool, true, false, not, Option, none, some, List, [], ◌∷◌, ◌&&◌, ◌||◌, map, find,
  str_eq, ◌==◌, if◌then◌else◌,
}
use midscale.Prelude.Int.{ℤ}
use midscale.Endpoints.{DeviceEndpoint}
use midscale.Scoring.{sort_endpoint_candidates, select_best_endpoint}
use midscale.Topology.{
  DeviceState, NetworkState, PeerPlan, TopologyPlan, TopologyType, star, mesh, hybrid, Inputs,
  get_list, best_endpoint, or_text, or_num, truthy,
}
use midscale.Topology as Plans
use midscale.Topology.Star.{star_plan}
use midscale.Topology.Mesh.{mesh_plan}
use midscale.Topology.Hybrid.{hybrid_plan}
use midscale.Api.{Device, Db, Reply, ok, crash, ◌>>=◌, found}
use midscale.Config.{
  UuidText, opt_str, build_network_state, build_device_states, build_dns_servers,
  build_routes_by_device, build_endpoints_by_device, text_or_empty,
}
use midscale.Config.Answer.{
  EndpointCandidate, RelayCandidateInfo, PeerInfo, Interface, ConfigData, DeviceConfigV2Response,
}

-- Settings and libraries.
pub record Environment : Type 0 where
  pub uuid : UuidText
  pub settings : Plans.Settings
  pub wireguard_topology : String
  pub relay_endpoint : String
  pub list_set : List String → List String
  pub prefixlen : String → Option String
  pub config_hash : ConfigData → String

-- `TopologyType(text)`, which raises ValueError for any other text.
abbrev pub topology_type : String → Reply TopologyType
topology_type t =
    if str_eq t "star"
    then ok star
    else if str_eq t "mesh"
    then ok mesh
    else if str_eq t "hybrid"
    then ok hybrid
    else crash

abbrev pub generate_plan : TopologyType → Inputs → DeviceState → TopologyPlan
generate_plan star = star_plan
generate_plan mesh = mesh_plan
generate_plan hybrid = hybrid_plan

-- network_state.topology or settings.wireguard_topology
abbrev pub topology_text : Option String → String → String
topology_text none default = default
topology_text (some t) default = if truthy t then t else default

abbrev pub is_mesh_or_hybrid : String → Bool
is_mesh_or_hybrid t = str_eq t "mesh" || str_eq t "hybrid"

-- `str(ep_obj.id) == best_id`
abbrev pub is_preferred : Option DeviceEndpoint → DeviceEndpoint → Bool
is_preferred none e = false
is_preferred (some best) e = e.id == best.id

abbrev pub candidate : Option DeviceEndpoint → DeviceEndpoint → EndpointCandidate
candidate best e = record {
  endpoint = e.endpoint;
  port = e.port;
  source = e.source;
  priority = e.priority;
  last_seen_at = e.last_seen;
  local_ip = e.local_ip;
  public_ip = e.public_ip;
  reachable = e.reachable;
  latency_ms = e.latency_ms;
  score = e.score;
  preferred = is_preferred best e;
}

abbrev pub is_none : Option String → Bool
is_none none = true
is_none (some s) = false

-- What the loop over the candidates leaves in `best_ep` and `best_port`.
abbrev pub chosen :
    Option DeviceEndpoint
    → List DeviceEndpoint
    → Option String × Option ℤ
    → Option String × Option ℤ
chosen best [] at = at
chosen best (e ∷ es) at =
    chosen best es
      (if is_none at.0 || is_preferred best e then (some e.endpoint, some e.port) else at)

abbrev pub is_empty : List DeviceEndpoint → Bool
is_empty [] = true
is_empty (e ∷ es) = false

-- `get_best_relay_candidate` of backend/app/services/relay.py
abbrev pub get_best_relay_candidate : (relay_endpoint : String) → RelayCandidateInfo
get_best_relay_candidate at = record {
  relay_node = "relay0";
  relay_region = "default";
  relay_endpoint = at;
  priority = 50;
  preferred = true;
}

-- The loop's body for one peer of the plan, with the endpoints of the device that has its key.
unfoldable pub peer_info :
    (relay_endpoint : String) (mesh_or_hybrid : Bool) → PeerPlan → List DeviceEndpoint → PeerInfo
unfolding sort_endpoint_candidates select_best_endpoint
peer_info relay_endpoint mesh_or_hybrid pp eps =
    let best = select_best_endpoint eps in
    let ranked = sort_endpoint_candidates eps in
    let at =
      if not (is_empty eps) && mesh_or_hybrid
      then chosen best ranked (pp.endpoint, pp.endpoint_port)
      else (pp.endpoint, pp.endpoint_port) in
    let relayed = (if is_empty eps then pp.relay_fallback else false) && mesh_or_hybrid in
    record {
      public_key = pp.public_key;
      allowed_ips = pp.allowed_ips;
      endpoint = or_text at.0 pp.endpoint;
      endpoint_port = or_num at.1 pp.endpoint_port;
      persistent_keepalive = pp.persistent_keepalive;
      endpoint_candidates = if mesh_or_hybrid then map (candidate best) ranked else [];
      relay_fallback = relayed;
      relay_candidates =
          if relayed then some (get_best_relay_candidate relay_endpoint ∷ []) else none;
      relay_required = relayed;
    }

-- `{ds.public_key: ds.id for ds in device_states}.get(key, "")`: the last device with the key.
abbrev pub id_of_key : String → List DeviceState → (last : String) → String
id_of_key key [] last = last
id_of_key key (d ∷ ds) last = id_of_key key ds (if str_eq d.public_key key then d.id else last)

abbrev pub interface_of : Option String → (ip : String) → Option (List String) → Reply Interface
interface_of none ip dns = crash
interface_of (some len) ip dns = ok (record { address = append ip (append "/" len); dns = dns })

abbrev pub dns_of : Environment → Device → Db → Option (List String)
dns_of env device db =
    if device.dns_enabled then build_dns_servers env.list_set device.network_id db else none

module _ (env : Environment) (now : ℕ) where
  open env use {uuid}

  abbrev pub inputs : Device → NetworkState → Db → Inputs
  inputs device network db =
      let (states, server) = build_device_states uuid device.network_id db in
      record {
        settings = env.settings;
        all_devices = states;
        network = network;
        server_device_id = text_or_empty server;
        routes_by_device = (build_routes_by_device uuid device.network_id db).1;
        endpoints_by_device = build_endpoints_by_device uuid device.network_id db;
      }

  -- The peers of the response, of those of the plan.
  abbrev pub peer_infos : Inputs → (topology : String) → List PeerPlan → List PeerInfo
  peer_infos i topology plans =
      map
        (λ pp.
          peer_info env.relay_endpoint (is_mesh_or_hybrid topology) pp
            (get_list i.endpoints_by_device (id_of_key pp.public_key i.all_devices "")))
        plans

  abbrev pub config_of : Device → Db → Interface → List PeerInfo → ConfigData
  config_of device db interface peers = record {
    interface = interface;
    peers = peers;
    routes = (build_routes_by_device uuid device.network_id db).0;
    exit_node = opt_str uuid device.exit_node_id;
  }

  unfoldable pub build_config_v2 : Device → Db → Reply DeviceConfigV2Response
  unfolding build_network_state build_device_states build_dns_servers build_routes_by_device
      build_endpoints_by_device peer_info star_plan mesh_plan hybrid_plan best_endpoint
  build_config_v2 device db = do
    network ← build_network_state device.network_id db
    let i = inputs device network db
    let topology = topology_text network.topology env.wireguard_topology
    current ← found (find (λ s. str_eq s.id (uuid.str device.id)) i.all_devices) 404
    type ← topology_type topology
    let plan = generate_plan type i current
    interface ←
        interface_of (env.prefixlen network.subnet) current.ip_address (dns_of env device db)
    let config = config_of device db interface (peer_infos i topology plan.peers)
    ok (record { config = config; revision = now; hash = env.config_hash config })
