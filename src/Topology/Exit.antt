-- ===== src/Topology/Exit.antt =====
-- What choosing an exit node changes in a plan: backend/app/services/topology.py, the blocks "Exit node
-- peer".
use text.Mathlib.TextPositions.{eq_refl}
use midscale.Prelude.{
  String, true, false, Option, none, some, List, [], ◌∷◌, ◌≡◌, ◌≢◌, refl, ap, arith, any, keep,
  str_eq, eq_iff,
}
use midscale.Scoring.{first}
use midscale.Topology.{
  DeviceState, PeerPlan, Inputs, has_key, other_peers, add_exit_device, add_exit_node, plan_with,
}
use midscale.Topology.Mesh.{mesh_peer, mesh_plan}
use midscale.Topology.Hybrid.{hybrid_peer, hybrid_plan}

add_exit_device-present :
    (o : Option DeviceState) (peers : List PeerPlan)
    → ((ed : DeviceState) → o ≡ some ed → any (has_key ed.public_key) peers ≡ true)
    → add_exit_device o peers ≡ peers
add_exit_device-present none peers h = refl
add_exit_device-present (some ed) peers h = ground (arith, h ed refl)

module _ (peer : DeviceState → PeerPlan)
    (key : (d : DeviceState) → (peer d).public_key ≡ d.public_key) (device : DeviceState)
    (x : String) (other : str_eq x device.id ≡ false) where
  -- The device that the id finds is among the others, so the loop has a peer with its key.
  exit-has_key :
      (all : List DeviceState) (ed : DeviceState)
      → first (keep (λ d. str_eq d.id x) all) ≡ some ed
      → any (has_key ed.public_key) (other_peers peer device all) ≡ true
  unfolding other_peers
  exit-has_key [] ed e = cc
  exit-has_key (d ∷ all) ed e = ground (
    arith,
    key d,
    eq_iff d.id x,
    eq_iff d.id device.id,
    eq_iff x device.id,
    eq_refl ed.public_key,
    exit-has_key all ed,
  )

  -- With the exit device in the list of devices nothing is left to add.
  pub add_exit_node-other_peers :
      (i : Inputs)
      → device.exit_node_id ≡ some x
      → add_exit_node i device (other_peers peer device i.all_devices)
        ≡ other_peers peer device i.all_devices
  unfolding add_exit_node
  add_exit_node-other_peers i h = ground (
    arith,
    h,
    add_exit_device-present (first (keep (λ d. str_eq d.id x) i.all_devices))
        (other_peers peer device i.all_devices) (exit-has_key i.all_devices),
  )

abbrev pub without_exit : DeviceState → DeviceState
without_exit d = record d { exit_node_id = none }

module _ (i : Inputs) (device : DeviceState) (x : String) (chosen : device.exit_node_id ≡ some x)
    (other : x ≢ device.id) where
  apart : str_eq x device.id ≡ false
  apart = ground (arith, eq_iff x device.id)

  mesh_plan-ignores_exit : mesh_plan i device ≡ mesh_plan i (without_exit device)
  unfolding mesh_plan add_exit_node mesh_peer other_peers
  mesh_plan-ignores_exit =
      ap (plan_with i device)
        (add_exit_node-other_peers (mesh_peer i) (λ d. refl) device x apart i chosen)

  hybrid_plan-ignores_exit : hybrid_plan i device ≡ hybrid_plan i (without_exit device)
  unfolding hybrid_plan add_exit_node other_peers
  hybrid_plan-ignores_exit =
      ap (plan_with i device)
        (add_exit_node-other_peers (hybrid_peer i) key device x apart i chosen)
    where
      key : (d : DeviceState) → (hybrid_peer i d).public_key ≡ d.public_key
      key d = unfold hybrid_peer in ground arith

  -- In a mesh and in a hybrid network, for a device whose exit node is set to an id other than its own,
  -- the plan is the plan without the choice: choosing an exit node hands out no default route.
  pub plans-ignore_exit :
      (mesh_plan i device ≡ mesh_plan i (without_exit device))
      × (hybrid_plan i device ≡ hybrid_plan i (without_exit device))
  plans-ignore_exit = (mesh_plan-ignores_exit, hybrid_plan-ignores_exit)
