-- ===== src/Controller/Tests.antt =====
-- An interface with one known peer and one orphan, and the theorems about it:
-- backend/app/services/wg_controller.py.
use midscale.Prelude.{
  ℕ, ◌≤◌, String, true, false, Option, none, some, List, [], ◌∷◌, ◌≡◌, refl, any, find,
}
use midscale.Prelude.Dict.{get}
use midscale.WgAdapter.{InterfaceState, Mock, mock, new_peer, new_interface}
use midscale.Controller.{Device, has_peer, wants, get_desired_peers}
use midscale.Controller.Reconcile.{World, reconcile_interface, sync_runtime_metadata}
use midscale.Controller.Converge.{
  peers_of, desired_on, reconcile_interface-converges, reconcile_interface-keeps,
}
use midscale.Controller.Metadata.{handshake_of, sync_runtime_metadata-later}

abbrev wg0 : InterfaceState
wg0 = record (new_interface "wg0" "server") {
  peers =
      record (new_peer "ka" ("10.0.0.9/32" ∷ [])) { latest_handshake = some 90 }
      ∷ new_peer "kx" []
      ∷ [];
}

abbrev device : ℕ → String → Option ℕ → Device
device k key shake = record {
  id = k;
  name = key;
  network_id = 1;
  public_key = some key;
  ip_address = some "10.0.0.2";
  is_active = true;
  last_handshake = shake;
  created_at = 0;
  updated_at = 0;
}

abbrev world : World Mock
world = record {
  adapter = record { interfaces = (some "wg0", wg0) ∷ []; next_key_counter = 0 };
  devices = device 1 "ka" (some 50) ∷ device 2 "kb" none ∷ [];
  networks = record { id = 1; interface_name = none } ∷ [];
  routes =
      record { device_id = 1; prefix = "192.168.1.0/24"; enabled = true; approved = true } ∷ [];
  wireguard_interface = "wg0";
  runs = [];
  events = [];
}

abbrev mock_key : ℕ → String
mock_key n = "MOCK"

there : get (some "wg0") world.adapter.interfaces ≡ some wg0
unfolding get
there = refl

reconcile_interface-converges_example :
    any
      (has_peer "kb")
      (peers_of "wg0" (reconcile_interface (mock mock_key) 100 true "wg0" world).1.adapter)
    ≡ any (wants "kb") (desired_on "wg0" world)
reconcile_interface-converges_example =
    reconcile_interface-converges mock_key 100 true "wg0" world wg0 there "kb"

wanted : any (wants "ka") (desired_on "wg0" world) ≡ true
unfolding get_desired_peers
wanted = refl

reconcile_interface-keeps_example :
    find
      (has_peer "ka")
      (peers_of "wg0" (reconcile_interface (mock mock_key) 100 true "wg0" world).1.adapter)
    ≡ some (record (new_peer "ka" ("10.0.0.9/32" ∷ [])) { latest_handshake = some 90 })
reconcile_interface-keeps_example =
    reconcile_interface-keeps mock_key 100 true "wg0" world wg0 there "ka"
      (record (new_peer "ka" ("10.0.0.9/32" ∷ [])) { latest_handshake = some 90 }) refl wanted

abbrev synced : List Device
synced = record (device 1 "ka" (some 90)) { updated_at = 100 } ∷ device 2 "kb" none ∷ []

syncs : sync_runtime_metadata 100 false wg0.peers (world.devices, []) ≡ some (synced, [])
unfolding sync_runtime_metadata
syncs = refl

sync_runtime_metadata-later_example : handshake_of 1 world.devices ≤ handshake_of 1 synced
sync_runtime_metadata-later_example =
    sync_runtime_metadata-later 1 100 false wg0.peers world.devices [] synced [] syncs
