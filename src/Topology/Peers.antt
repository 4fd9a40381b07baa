-- ===== src/Topology/Peers.antt =====
-- Whom a plan connects: the generators of backend/app/services/topology.py.
use midscale.Prelude.{
  String, Bool, true, false, not, Option, none, some, List, [], ◌∷◌, ◌≡◌, ◌≢◌, refl, ap, ◌∙◌, inl,
  inr, arith, all, keep, map, find, str_eq, eq_iff, ◌||◌, Option-cases, Bool-cases, find-some,
}
use midscale.Scoring.{first}
use midscale.Topology.{
  DeviceState, PeerPlan, Inputs, truthy, server_endpoint, other_peers, add_exit_device,
  add_exit_node,
}
use midscale.Topology.Star.{star_plan, hub_peer, client_peers}
use midscale.Topology.Mesh.{mesh_peer, mesh_plan}
use midscale.Topology.Hybrid.{hybrid_peer, hybrid_plan, is_known}
use midscale.Topology.Exit.{add_exit_node-other_peers}

-- The device has not chosen itself as its exit node.
abbrev pub NotOwnExit : DeviceState → Type 0
NotOwnExit device = (x : String) → device.exit_node_id ≡ some x → x ≢ device.id

-- Every device but the one with id `k`.
abbrev pub others : String → List DeviceState → List DeviceState
others k all = keep (λ d. not (str_eq d.id k)) all

abbrev pub keys_of : List DeviceState → List String
keys_of = map (λ d. d.public_key)

abbrev pub peer_keys : List PeerPlan → List String
peer_keys = map (λ p. p.public_key)

no_choice :
    (i : Inputs) (device : DeviceState) (peers : List PeerPlan)
    → device.exit_node_id ≡ none
    → add_exit_node i device peers ≡ peers
unfolding add_exit_node
no_choice i device peers e = ground arith

add_exit_device-first :
    (o : Option DeviceState) (p : PeerPlan) → first (add_exit_device o (p ∷ [])) ≡ some p
add_exit_device-first none p = refl
add_exit_device-first (some ed) p = ground arith

-- The exit node comes behind the peers that are there.
add_exit_node-first :
    (i : Inputs) (device : DeviceState) (p : PeerPlan)
    → first (add_exit_node i device (p ∷ [])) ≡ some p
unfolding add_exit_node
add_exit_node-first i device p = elim (Option-cases device.exit_node_id) [
  | inl e ↦ ground arith
  | inr (x, e) ↦
      ground (arith, add_exit_device-first (first (keep (λ d. str_eq d.id x) i.all_devices)) p)
]

module _ (peer : DeviceState → PeerPlan)
    (key : (d : DeviceState) → (peer d).public_key ≡ d.public_key) (device : DeviceState) where
  other_peers-keys :
      (all : List DeviceState)
      → peer_keys (other_peers peer device all) ≡ keys_of (others device.id all)
  unfolding other_peers
  other_peers-keys [] = refl
  other_peers-keys (d ∷ all) = ground (arith, key d, other_peers-keys all)

  no_exit :
      (i : Inputs)
      → NotOwnExit device
      → add_exit_node i device (other_peers peer device i.all_devices)
        ≡ other_peers peer device i.all_devices
  no_exit i own = elim (Option-cases device.exit_node_id) [
    | inl e ↦ no_choice i device (other_peers peer device i.all_devices) e
    | inr (x, e) ↦ add_exit_node-other_peers peer key device x (apart x (own x e)) i e
  ]
    where
      apart : (x : String) → x ≢ device.id → str_eq x device.id ≡ false
      apart x ne = ground (arith, eq_iff x device.id)

hybrid-key : (i : Inputs) (d : DeviceState) → (hybrid_peer i d).public_key ≡ d.public_key
unfolding hybrid_peer
hybrid-key i d = ground arith

mesh-key : (i : Inputs) (d : DeviceState) → (mesh_peer i d).public_key ≡ d.public_key
unfolding mesh_peer
mesh-key i d = refl

-- In a mesh and in a hybrid network the peers of a device that has not chosen itself as its exit node
-- are all the other devices, each once and in order.
pub plans-keys :
    (i : Inputs) (device : DeviceState)
    → NotOwnExit device
    → (peer_keys (mesh_plan i device).peers ≡ keys_of (others device.id i.all_devices))
      × (peer_keys (hybrid_plan i device).peers ≡ keys_of (others device.id i.all_devices))
unfolding mesh_plan hybrid_plan
plans-keys i device own = (
  ap peer_keys (no_exit (mesh_peer i) (mesh-key i) device i own)
      ∙ other_peers-keys (mesh_peer i) (mesh-key i) device i.all_devices,
  ap peer_keys (no_exit (hybrid_peer i) (hybrid-key i) device i own)
      ∙ other_peers-keys (hybrid_peer i) (hybrid-key i) device i.all_devices,
)

-- A peer that traffic can be sent to: it has an endpoint, or is marked for the relay.
abbrev pub can_reach : PeerPlan → Bool
can_reach p = p.relay_fallback || is_known p.endpoint

server_endpoint-truthy : (i : Inputs) → truthy (server_endpoint i) ≡ true
server_endpoint-truthy i = elim (Bool-cases (truthy i.settings.wireguard_server_endpoint)) [
  | inl e ↦ rw e e
  | inr e ↦ rw e refl
]

hybrid_peer-can_reach : (i : Inputs) (d : DeviceState) → can_reach (hybrid_peer i d) ≡ true
unfolding hybrid_peer
hybrid_peer-can_reach i d = ground (arith, server_endpoint-truthy i)

other_peers-all :
    (peer : DeviceState → PeerPlan) (q : PeerPlan → Bool)
    → ((d : DeviceState) → q (peer d) ≡ true)
    → (device : DeviceState) (ds : List DeviceState) → all q (other_peers peer device ds) ≡ true
unfolding other_peers
other_peers-all peer q h device [] = refl
other_peers-all peer q h device (d ∷ ds) = ground (arith, h d, other_peers-all peer q h device ds)

-- In a hybrid network, for a device that has not chosen itself as its exit node, no peer is left
-- without both an endpoint and the relay.
pub hybrid_plan-can_reach :
    (i : Inputs) (device : DeviceState)
    → NotOwnExit device
    → all can_reach (hybrid_plan i device).peers ≡ true
unfolding hybrid_plan
hybrid_plan-can_reach i device own =
    ap (all can_reach) (no_exit (hybrid_peer i) (hybrid-key i) device i own)
    ∙ other_peers-all (hybrid_peer i) can_reach (hybrid_peer-can_reach i) device i.all_devices

client_peers-keys :
    (i : Inputs) (ds : List DeviceState)
    → peer_keys (client_peers i ds) ≡ keys_of (others i.server_device_id ds)
unfolding client_peers
client_peers-keys i [] = refl
client_peers-keys i (d ∷ ds) = ground (arith, client_peers-keys i ds)

-- In a star the hub's peers are all the devices that are not the hub, each once and in order, if the
-- hub is found among the devices; every other device's first peer is then the hub, at the network's
-- subnet and the server's endpoint.
pub star_plan_spokes :
    (i : Inputs) (hub device : DeviceState)
    → find (λ d. str_eq d.id i.server_device_id) i.all_devices ≡ some hub
    → device.id ≢ i.server_device_id
    → (peer_keys (star_plan i hub).peers ≡ keys_of (others i.server_device_id i.all_devices))
      × (first (star_plan i device).peers ≡ some (hub_peer i hub))
unfolding star_plan
star_plan_spokes i hub device found ne = (
  ground (arith, found, found_id, client_peers-keys i i.all_devices),
  ground (
    arith,
    found,
    eq_iff device.id i.server_device_id,
    add_exit_node-first i device (hub_peer i hub),
  ),
)
  where
    found_id : str_eq hub.id i.server_device_id ≡ true
    found_id = find-some (λ d. str_eq d.id i.server_device_id) i.all_devices hub found
