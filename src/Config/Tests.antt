-- ===== src/Config/Tests.antt =====
-- A configuration built from tables, and the theorems about it at concrete rows.
use midscale.Prelude.{
  ℕ, String, Bool, true, false, none, some, List, [], ◌∷◌, ◌≡◌, ◌&&◌, refl, count, map, keep, ◌==◌,
}
use midscale.Prelude.Int.{ℤ, pos}
use midscale.Endpoints.{DeviceEndpoint}
use midscale.Scoring.{select_best_endpoint}
use midscale.Topology.{PeerPlan, or_text, or_num, get_list}
use midscale.Api.{Device, AdvertisedRoute, Db, Reply, ok}
use midscale.Config.{is_in_force, build_routes_by_device}
use midscale.Config.Answer.{DeviceConfigV2Response, PeerInfo}
use midscale.Config.Build.{build_config_v2, peer_info}
use midscale.Config.Grouping.{routes_in_force}
use midscale.Config.Preferred.{peer_info-preferred, is_chosen}
use midscale.Config.Sample.{uuid, unary, environment}

abbrev device : ℕ → Bool → Device
device k on = record {
  id = k;
  name = "node";
  user_id = none;
  network_id = 5;
  public_key = some (unary k);
  private_key_enc = none;
  ip_address = some "10.0.0.2";
  dns_enabled = true;
  is_active = on;
  is_node_owned = true;
  device_token_hash = none;
  device_token_prefix = none;
  enrollment_status = "active";
  enrolled_at = none;
  last_seen_at = none;
  revoked_at = none;
  tags = none;
  exit_node_id = none;
}

abbrev route : ℕ → String → Bool → AdvertisedRoute
route k prefix on = record {
  id = k;
  device_id = 2;
  network_id = 5;
  prefix = prefix;
  enabled = on;
  approved = true;
  is_exit_node = false;
}

abbrev endpoint : ℕ → String → ℤ → DeviceEndpoint
endpoint k at score = record {
  id = k;
  device_id = 2;
  endpoint = at;
  source = "stun";
  port = pos 51820;
  local_ip = none;
  public_ip = none;
  priority = pos 100;
  is_active = true;
  last_seen = some 7;
  latency_ms = some (pos 20);
  reachable = true;
  last_probe_at = none;
  failure_count = 0;
  success_count = 0;
  score = score;
}

abbrev db : Db
db = record {
  networks = record { id = 5; subnet = "10.0.0.0/24"; topology = none; owner_id = some 1 } ∷ [];
  devices = device 1 true ∷ device 2 true ∷ device 3 true ∷ device 4 false ∷ [];
  routes = route 20 "192.168.1.0/24" true ∷ route 21 "192.168.2.0/24" false ∷ [];
  preauth_keys = [];
  dns_entries = [];
  endpoints = endpoint 30 "203.0.113.1" (pos 40) ∷ endpoint 31 "203.0.113.2" (pos 90) ∷ [];
  audit = [];
}

abbrev peers_in : Reply DeviceConfigV2Response → List PeerInfo
peers_in (ok r) = r.config.peers
peers_in _ = []

built : List PeerInfo
unfolding build_config_v2
built = peers_in (build_config_v2 environment 100 (device 1 true) db)

-- The peer with endpoints has the better one, the other one is to be relayed.
built_endpoints : map (λ p. p.endpoint) built ≡ some "203.0.113.2" ∷ none ∷ []
unfolding built
built_endpoints = refl

built_relays : map (λ p. p.relay_required) built ≡ false ∷ true ∷ []
unfolding built
built_relays = refl

abbrev plan : PeerPlan
plan = record {
  public_key = "11";
  allowed_ips = [];
  endpoint = some "203.0.113.1";
  endpoint_port = some (pos 51820);
  persistent_keepalive = none;
  relay_fallback = false;
}

best_of : select_best_endpoint db.endpoints ≡ some (endpoint 31 "203.0.113.2" (pos 90))
unfolding select_best_endpoint
best_of = refl

routes_in_force_example :
    get_list (build_routes_by_device uuid 5 db).1 (unary 2)
    ≡ map (λ r. r.prefix) (keep (λ r. is_in_force 5 r && r.device_id == 2) db.routes)
routes_in_force_example = routes_in_force uuid 5 2 db

peer_info-preferred_example :
    let p = peer_info "relay:1" true plan db.endpoints in
    (p.endpoint ≡ or_text (some "203.0.113.2") (some "203.0.113.1"))
    × (p.endpoint_port ≡ or_num (some (pos 51820)) (some (pos 51820)))
    × (p.relay_required ≡ false)
    × (count is_chosen p.endpoint_candidates ≡ 1)
peer_info-preferred_example =
    peer_info-preferred "relay:1" plan db.endpoints (endpoint 31 "203.0.113.2" (pos 90)) best_of
      refl
