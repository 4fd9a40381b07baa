-- ===== src/Topology/Tests.antt =====
-- Plans of backend/app/services/topology.py for a hub and two clients, and the theorems at them.
use midscale.Prelude.{
  String, true, Option, none, some, [], ◌∷◌, ◌≡◌, ◌≢◌, refl, all, arith, eq_iff, map,
}
use midscale.Prelude.Int.{pos}
use midscale.Scoring.{first}
use midscale.Endpoints.{DeviceEndpoint}
use midscale.Topology.{DeviceState, Inputs}
use midscale.Topology.Star.{star_plan, hub_peer}
use midscale.Topology.Mesh.{mesh_plan}
use midscale.Topology.Hybrid.{hybrid_plan}
use midscale.Topology.Exit.{without_exit, plans-ignore_exit}
use midscale.Topology.Peers.{
  peer_keys, can_reach, plans-keys, hybrid_plan-can_reach, star_plan_spokes,
}

abbrev device : String → String → String → Option String → DeviceState
device i k ip x = record {
  id = i;
  public_key = k;
  ip_address = ip;
  dns_enabled = true;
  exit_node_id = x;
}

abbrev hub : DeviceState
hub = device "s" "S=" "10.0.0.1" none

abbrev laptop : DeviceState
laptop = device "a" "A=" "10.0.0.2" (some "b")

abbrev gateway : DeviceState
gateway = device "b" "B=" "10.0.0.3" none

abbrev direct : DeviceEndpoint
direct = record {
  id = 4;
  device_id = 2;
  endpoint = "203.0.113.7";
  source = "stun";
  port = pos 41641;
  local_ip = none;
  public_ip = none;
  priority = pos 100;
  is_active = true;
  last_seen = some 9;
  latency_ms = none;
  reachable = true;
  last_probe_at = none;
  failure_count = 0;
  success_count = 1;
  score = pos 50;
}

abbrev office : Inputs
office = record {
  settings = record { wireguard_server_endpoint = ""; wireguard_port = pos 51820 };
  all_devices = hub ∷ laptop ∷ gateway ∷ [];
  network = record { subnet = "10.0.0.0/24"; topology = none };
  server_device_id = "s";
  routes_by_device = ("b", "192.168.7.0/24" ∷ []) ∷ [];
  endpoints_by_device = ("b", direct ∷ []) ∷ [];
}

star_exit :
    map (λ p. p.allowed_ips) (star_plan office laptop).peers
    ≡ ("10.0.0.0/24" ∷ []) ∷ ("0.0.0.0/0" ∷ "::/0" ∷ []) ∷ []
unfolding star_plan
star_exit = refl

mesh_routes :
    map (λ p. p.allowed_ips) (mesh_plan office laptop).peers
    ≡ ("10.0.0.1/32" ∷ []) ∷ ("10.0.0.3/32" ∷ "192.168.7.0/24" ∷ []) ∷ []
unfolding mesh_plan
mesh_routes = refl

laptop-NotOwnExit : (x : String) → laptop.exit_node_id ≡ some x → x ≢ "a"
laptop-NotOwnExit x e h = ground (arith, eq_iff "b" "a")

ids_apart : ◌≢◌ {A = String} "b" "a"
ids_apart = ground (arith, eq_iff "b" "a")

plans-ignore_exit_example :
    (mesh_plan office laptop ≡ mesh_plan office (without_exit laptop))
    × (hybrid_plan office laptop ≡ hybrid_plan office (without_exit laptop))
plans-ignore_exit_example = plans-ignore_exit office laptop "b" refl ids_apart

plans-keys_example :
    (peer_keys (mesh_plan office laptop).peers ≡ "S=" ∷ "B=" ∷ [])
    × (peer_keys (hybrid_plan office laptop).peers ≡ "S=" ∷ "B=" ∷ [])
plans-keys_example = plans-keys office laptop laptop-NotOwnExit

hybrid_plan-can_reach_example : all can_reach (hybrid_plan office laptop).peers ≡ true
hybrid_plan-can_reach_example = hybrid_plan-can_reach office laptop laptop-NotOwnExit

star_plan_spokes_example :
    (peer_keys (star_plan office hub).peers ≡ "A=" ∷ "B=" ∷ [])
    × (first (star_plan office laptop).peers ≡ some (hub_peer office hub))
star_plan_spokes_example = star_plan_spokes office hub laptop refl (ground (arith, eq_iff "a" "s"))
