-- ===== src/Api/RouteRequests.antt =====
-- Requests to backend/app/api/v1/routes.py in sequence, each a transaction, and what the table of
-- routes is to satisfy.
use midscale.Prelude.{ℕ, String, Bool, true, false, Option, List, [], ◌∷◌}
use midscale.Api.{User, settle, Reply, ok}
use midscale.Api.Prefix.{IpNetworks}
use midscale.Api.Routes.{
  World, advertise_route, device_advertise_route, approve_route, update_route, delete_route,
  select_exit_node,
}

abbrev pub accepted {ℓ} : {A : Type ℓ} → Reply A → Bool
accepted (ok a) = true
accepted _ = false

-- The requests, each with its user or device; the ids of new rows are the tables'.
pub data Request : Type 0 where
  advertised : (new_id network_id : ℕ) (prefix : String) (is_exit_node : Bool) → User → Request
  device_advertised : (new_id device_id : ℕ) (prefix : String) (is_exit_node : Bool) → Request
  approved : (route_id : ℕ) (approved enabled : Bool) → User → Request
  updated : (route_id : ℕ) (enabled : Option Bool) → User → Request
  deleted : (route_id : ℕ) → User → Request
  selected : (device_id : ℕ) (exit_node_id : Option ℕ) → User → Request

module _ (lib : IpNetworks) (debug has_dec takes_none : Bool) where
  unfoldable pub handle : Request → World → Reply World
  unfolding advertise_route device_advertise_route approve_route update_route delete_route
      select_exit_node
  handle (advertised i n p e u) w = advertise_route lib debug i n p e u w
  handle (device_advertised i d p e) w = device_advertise_route lib debug i d p e w
  handle (approved r a e u) w = approve_route r a e u w
  handle (updated r e u) w = update_route r e u w
  handle (deleted r u) w = delete_route has_dec r u w
  handle (selected d x u) w = select_exit_node takes_none d x u w

  unfoldable pub run : List Request → World → World
  unfolding handle
  run [] w = w
  run (r ∷ rs) w = run rs (settle w (handle r w))
