-- ===== src/Topology/Star.antt =====
-- `StarTopologyGenerator.generate_plan` of backend/app/services/topology.py.
use midscale.Prelude.{false, some, none, List, [], ◌∷◌, find, str_eq, if◌then◌else◌}
use midscale.Topology.{
  DeviceState, PeerPlan, TopologyPlan, Inputs, server_endpoint, routes_to, plain_peer,
  add_exit_node, plan_with,
}

-- The hub's loop: one peer for each client.
unfoldable pub client_peers : Inputs → List DeviceState → List PeerPlan
client_peers i [] = []
client_peers i (other ∷ rest) =
    let later = client_peers i rest in
    if str_eq other.id i.server_device_id
    then later
    else plain_peer other.public_key (routes_to i other) ∷ later

-- A client's way to the hub.
abbrev pub hub_peer : Inputs → DeviceState → PeerPlan
hub_peer i server = record {
  public_key = server.public_key;
  allowed_ips = i.network.subnet ∷ [];
  endpoint = some (server_endpoint i);
  endpoint_port = some i.settings.wireguard_port;
  persistent_keepalive = some 25;
  relay_fallback = false;
}

unfoldable pub star_plan : Inputs → DeviceState → TopologyPlan
unfolding client_peers add_exit_node
star_plan i device = elim (find (λ d. str_eq d.id i.server_device_id) i.all_devices) [
  | none ↦ plan_with i device []
  | some server ↦
      if str_eq device.id i.server_device_id
      then plan_with i device (client_peers i i.all_devices)
      else plan_with i device (add_exit_node i device (hub_peer i server ∷ []))
]
