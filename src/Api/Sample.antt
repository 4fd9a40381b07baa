-- ===== src/Api/Sample.antt =====
-- A small network for tests of backend/app/api/v1.
use midscale.Prelude.{ℕ, true, false, none, some, [], ◌∷◌}
use midscale.Prelude.Int.{pos}
use midscale.Api.{User, Device}
use midscale.Api.Routes.{World}

abbrev pub admin : User
admin = record { id = 1; is_superuser = false }

abbrev pub stranger : User
stranger = record { id = 2; is_superuser = false }

abbrev pub device : ℕ → Device
device k = record {
  id = k;
  name = "node";
  user_id = some 1;
  network_id = 5;
  public_key = some "pk";
  private_key_enc = none;
  ip_address = some "10.0.0.2";
  dns_enabled = true;
  is_active = true;
  is_node_owned = true;
  device_token_hash = none;
  device_token_prefix = none;
  enrollment_status = "active";
  enrolled_at = none;
  last_seen_at = none;
  revoked_at = none;
  tags = none;
  exit_node_id = none;
}

abbrev pub start : World
start = record {
  db = record {
    networks = record { id = 5; subnet = "10.0.0.0/24"; topology = none; owner_id = some 1 } ∷ [];
    devices = device 11 ∷ device 12 ∷ [];
    routes = [];
    preauth_keys = [];
    dns_entries = [];
    endpoints = [];
    audit = [];
  };
  routes_total = pos 0;
  routes_approved = 0;
  exit_nodes_total = pos 0;
}
