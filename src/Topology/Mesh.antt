-- ===== src/Topology/Mesh.antt =====
-- `MeshTopologyGenerator.generate_plan` of backend/app/services/topology.py.
use midscale.Prelude.{Bool, true, false, some, none, List, [], ◌∷◌, str_eq, if◌then◌else◌}
use midscale.Topology.{
  DeviceState, PeerPlan, TopologyPlan, Inputs, server_endpoint, routes_to, get_list, best_endpoint,
  or_text, or_num, add_exit_node, other_peers, plan_with,
}

-- `not eps`
abbrev pub is_empty {ℓ} : {A : Type ℓ} → List A → Bool
is_empty [] = true
is_empty (x ∷ xs) = false

-- The loop's body for a device other than the plan's own.
unfoldable pub mesh_peer : Inputs → DeviceState → PeerPlan
mesh_peer i other =
    let eps = get_list i.endpoints_by_device other.id in
    let (ep, ep_port) = best_endpoint eps in
    let is_server = str_eq other.id i.server_device_id in
    record {
      public_key = other.public_key;
      allowed_ips = routes_to i other;
      endpoint = or_text ep (if is_server then some (server_endpoint i) else none);
      endpoint_port = or_num ep_port (if is_server then some i.settings.wireguard_port else none);
      persistent_keepalive = some 25;
      relay_fallback = is_empty eps;
    }

unfoldable pub mesh_plan : Inputs → DeviceState → TopologyPlan
unfolding mesh_peer other_peers add_exit_node
mesh_plan i device =
    plan_with i device (add_exit_node i device (other_peers (mesh_peer i) device i.all_devices))
