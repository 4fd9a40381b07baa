-- ===== src/Topology/Hybrid.antt =====
-- `HybridTopologyGenerator.generate_plan` of backend/app/services/topology.py.
use midscale.Prelude.{String, Bool, true, false, Option, some, none, [], ◌∷◌, str_eq, if◌then◌else◌}
use midscale.Topology.{
  DeviceState, PeerPlan, TopologyPlan, Inputs, server_endpoint, routes_to, get_list, best_endpoint,
  truthy, or_text, or_num, add_exit_node, other_peers, plan_with,
}

-- `elif ep:`
abbrev pub is_known : Option String → Bool
is_known none = false
is_known (some ep) = truthy ep

-- The loop's body for a device other than the plan's own: the hub, a device with a known endpoint, or
-- one that has to be relayed.
unfoldable pub hybrid_peer : Inputs → DeviceState → PeerPlan
hybrid_peer i other =
    let (ep, ep_port) = best_endpoint (get_list i.endpoints_by_device other.id) in
    if str_eq other.id i.server_device_id
    then record {
      public_key = other.public_key;
      allowed_ips = i.network.subnet ∷ [];
      endpoint = or_text ep (some (server_endpoint i));
      endpoint_port = or_num ep_port (some i.settings.wireguard_port);
      persistent_keepalive = some 25;
      relay_fallback = false;
    }
    else if is_known ep
    then record {
      public_key = other.public_key;
      allowed_ips = routes_to i other;
      endpoint = ep;
      endpoint_port = ep_port;
      persistent_keepalive = some 25;
      relay_fallback = false;
    }
    else record {
      public_key = other.public_key;
      allowed_ips = routes_to i other;
      endpoint = none;
      endpoint_port = none;
      persistent_keepalive = none;
      relay_fallback = true;
    }

unfoldable pub hybrid_plan : Inputs → DeviceState → TopologyPlan
unfolding hybrid_peer other_peers add_exit_node
hybrid_plan i device =
    plan_with i device (add_exit_node i device (other_peers (hybrid_peer i) device i.all_devices))
