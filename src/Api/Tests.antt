-- ===== src/Api/Tests.antt =====
-- Runs of the route handlers, and the theorems about them at a concrete network.
use midscale.Prelude.{
  ℕ, String, Bool, true, false, Option, none, some, List, [], ◌∷◌, ◌≡◌, ◌≤◌, ◌+◌, refl, arith,
  length, any, find, str_eq, if◌then◌else◌,
}
use midscale.Prelude.Int.{◌+ℤ◌}
use midscale.Api.{Device, ok, error, crash, settle}
use midscale.Api.Prefix.{IpNetworks, check_safe_prefix, check_overlap}
use midscale.Api.Routes.{
  World, is_own_device, is_exit_route, is_default_route, select_exit_node, delete_route,
}
use midscale.Api.RouteRequests.{Request, advertised, device_advertised, approved, handle, run}
use midscale.Api.RouteTable.{IsTidy, run-IsTidy}
use midscale.Api.ExitNode.{select_exit_node_lem}
use midscale.Api.Approval.{approvals, may_approve, settle-approvals}
use midscale.Api.Sample.{admin, stranger, start}

-- A network is its prefix length and whether it is private.
abbrev known : String → Option (ℕ × Bool)
known p =
    if str_eq p "192.168.1.0/24"
    then some (24, true)
    else if str_eq p "8.8.8.0/24"
    then some (24, false)
    else if str_eq p "10.0.0.0/7"
    then some (7, true)
    else none

abbrev lib : IpNetworks
lib = record {
  Net = ℕ × Bool;
  ipv4_network = known;
  prefixlen = λ n. n.0;
  is_private = λ n. n.1;
  is_loopback = λ n. false;
  overlaps = λ n m. true;
}

abbrev requests : List Request
requests =
    advertised 20 5 "192.168.1.0/24" false admin
    ∷ advertised 21 5 "192.168.1.0/24" false admin
    ∷ advertised 22 5 "8.8.8.0/24" false admin
    ∷ device_advertised 23 12 "0.0.0.0/0" true
    ∷ approved 20 true true stranger
    ∷ approved 23 true true admin
    ∷ []

handled : World
unfolding run handle ◌+ℤ◌
handled = run lib false false false requests start

-- Two routes are left: the second of the same prefix, the public one and the stranger's approval are
-- refused.
handled_routes : length handled.db.routes ≡ 2
unfolding handled
handled_routes = refl

handled-approvals : approvals handled ≡ 1
unfolding handled
handled-approvals = refl

too_broad : check_safe_prefix lib false "10.0.0.0/7" false ≡ error 400
unfolding check_safe_prefix
too_broad = refl

overlapping :
    check_overlap lib ("nonsense" ∷ "8.8.8.0/24" ∷ []) "192.168.1.0/24" ≡ some "8.8.8.0/24"
unfolding check_overlap
overlapping = refl

-- Device 11 advertises no default route, so its choice is answered with an exception.
not_chosen : select_exit_node false 11 (some 12) admin handled ≡ crash
unfolding handled select_exit_node
not_chosen = refl

chosen : World
unfolding handled select_exit_node
chosen = settle handled (select_exit_node false 12 (some 12) admin handled)

chosen_ok : select_exit_node false 12 (some 12) admin handled ≡ ok chosen
unfolding chosen
chosen_ok = refl

run-IsTidy_example :
    IsTidy lib false false false (run lib false false false requests start).db.routes
run-IsTidy_example = run-IsTidy lib false false false requests start (refl, λ n p. omega arith)

settle-approvals_example :
    approvals (settle handled (handle lib false false false (approved 20 true true admin) handled))
    ≤ approvals handled + (if may_approve (approved 20 true true admin) handled then 1 else 0)
settle-approvals_example =
    settle-approvals lib false false false (approved 20 true true admin) handled

select_exit_node_lem_example :
    (d : Device) × (find (is_own_device 12 admin) handled.db.devices ≡ some d)
    × (any (is_exit_route 12 d.network_id) handled.db.routes ≡ true)
    × (any (is_default_route 12) handled.db.routes ≡ true)
select_exit_node_lem_example = select_exit_node_lem false 12 12 admin handled chosen refl chosen_ok

deleted_world : World
unfolding delete_route
deleted_world = settle handled (delete_route true 20 admin handled)
