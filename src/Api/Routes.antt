-- ===== src/Api/Routes.antt =====
-- The handlers of backend/app/api/v1/routes.py that write, as methods on the tables with the counters
-- of backend/app/services/metrics.py. Ids of new rows are arguments.
use midscale.Prelude.{
  ℕ, String, Bool, true, false, not, Option, none, some, List, [], ◌∷◌, ◌++◌, ◌&&◌, ◌+◌, keep, find,
  update_first, str_eq, ◌==◌, if◌then◌else◌,
}
use midscale.Prelude.Int.{ℤ, pos, ◌+ℤ◌, ◌-ℤ◌}
use midscale.Scoring.{first}
use midscale.Api.{
  User, Device, AdvertisedRoute, Db, Reply, ok, crash, ◌>>=◌, ◌>>◌, require, found, one_or_none,
  same_id, device_of, require_network_owner,
}
use midscale.Api.Prefix.{IpNetworks, check_safe_prefix}

pub record World : Type 0 where
  pub db : Db
  pub routes_total : ℤ
  pub routes_approved : ℕ
  pub exit_nodes_total : ℤ

abbrev pub with_routes : List AdvertisedRoute → World → World
with_routes routes w = record w { db = record w.db { routes = routes } }

abbrev pub log : String → ℕ → World → World
log action target w = record w {
  db = record w.db { audit = w.db.audit ++ record { action = action; target_id = target } ∷ [] };
}

abbrev pub has_route_id : ℕ → AdvertisedRoute → Bool
has_route_id k r = r.id == k

abbrev pub route_of : ℕ → World → Option AdvertisedRoute
route_of k w = find (has_route_id k) w.db.routes

abbrev pub has_prefix : (network_id : ℕ) (prefix : String) → AdvertisedRoute → Bool
has_prefix network prefix r = r.network_id == network && str_eq r.prefix prefix

-- `_overlaps_with_existing`, as the handlers call it: with no id to leave out
unfoldable pub overlaps_with_existing :
    (network_id : ℕ) (prefix : String) → World → List AdvertisedRoute
overlaps_with_existing network prefix w = keep (has_prefix network prefix) w.db.routes

abbrev pub is_empty {ℓ} : {A : Type ℓ} → List A → Bool
is_empty [] = true
is_empty (x ∷ xs) = false

abbrev pub bump : Bool → ℕ → ℕ
bump b n = if b then n + 1 else n

-- The row that both handlers insert, with `ROUTES_TOTAL` and `EXIT_NODES_TOTAL`.
unfoldable pub insert_route :
    (new_id device_id network_id : ℕ) (prefix : String) (is_exit_node : Bool) → World → World
insert_route new_id device_id network_id prefix is_exit_node w = record w {
  db = record w.db {
    routes =
        w.db.routes
        ++ record {
          id = new_id;
          device_id = device_id;
          network_id = network_id;
          prefix = prefix;
          enabled = false;
          approved = false;
          is_exit_node = is_exit_node;
        }
          ∷ [];
  };
  routes_total = w.routes_total +ℤ pos 1;
  exit_nodes_total = if is_exit_node then w.exit_nodes_total +ℤ pos 1 else w.exit_nodes_total;
}

abbrev pub is_mine : User → (network_id : ℕ) → Device → Bool
is_mine user network d = same_id d.user_id user.id && d.network_id == network

module _ (lib : IpNetworks) (debug : Bool) where
  -- What the two advertising handlers share: the checks of the prefix, then the row.
  unfoldable pub advertise :
      (new_id device_id network_id : ℕ) (prefix : String) (is_exit_node : Bool)
      → World
      → Reply World
  unfolding check_safe_prefix overlaps_with_existing insert_route
  advertise new_id device_id network_id prefix is_exit_node w = do
    check_safe_prefix lib debug prefix is_exit_node
    require (is_empty (overlaps_with_existing network_id prefix w)) 409
    ok (insert_route new_id device_id network_id prefix is_exit_node w)

  unfoldable pub advertise_route :
      (new_id network_id : ℕ) (prefix : String) (is_exit_node : Bool) → User → World → Reply World
  unfolding require_network_owner advertise
  advertise_route new_id network_id prefix is_exit_node user w = do
    n ← require_network_owner network_id user w.db
    d ← found (first (keep (is_mine user network_id) w.db.devices)) 400
    w' ← advertise new_id d.id network_id prefix is_exit_node w
    ok (log "route.advertise" new_id w')

  -- The device has been authenticated by its token.
  unfoldable pub device_advertise_route :
      (new_id device_id : ℕ) (prefix : String) (is_exit_node : Bool) → World → Reply World
  unfolding advertise
  device_advertise_route new_id device_id prefix is_exit_node w = do
    d ← found (device_of device_id w.db) 404
    require d.is_active 404
    advertise new_id device_id d.network_id prefix is_exit_node w

-- A request may leave `enabled` out.
abbrev pub or_keep : Option Bool → Bool → Bool
or_keep none old = old
or_keep (some b) old = b

unfoldable pub approve_route : (route_id : ℕ) (approved enabled : Bool) → User → World → Reply World
unfolding require_network_owner
approve_route route_id approved enabled user w = do
  r ← found (route_of route_id w) 404
  n ← require_network_owner r.network_id user w.db
  let w' =
      with_routes
        (update_first (has_route_id route_id)
          (λ r. record r { approved = approved; enabled = enabled }) w.db.routes)
        w
  ok (
      log "route.approve" route_id
        (record w' { routes_approved = bump (approved && not r.approved) w.routes_approved }))

unfoldable pub update_route : (route_id : ℕ) (enabled : Option Bool) → User → World → Reply World
unfolding require_network_owner
update_route route_id enabled user w = do
  r ← found (route_of route_id w) 404
  n ← require_network_owner r.network_id user w.db
  ok (
      log "route.update" route_id (
        with_routes
          (update_first (has_route_id route_id)
            (λ r. record r { enabled = or_keep enabled r.enabled }) w.db.routes)
          w))

-- Whether a Counter of the library prometheus_client has a method `dec` is an argument: without one,
-- the call raises AttributeError.
abbrev pub after_dec :
    (counter_has_dec : Bool) → (route_id : ℕ) → AdvertisedRoute → World → Reply World
after_dec false route_id r w = crash
after_dec true route_id r w = ok (record w {
  db = record w.db { routes = keep (λ s. not (has_route_id route_id s)) w.db.routes };
  routes_total = w.routes_total -ℤ pos 1;
  exit_nodes_total = if r.is_exit_node then w.exit_nodes_total -ℤ pos 1 else w.exit_nodes_total;
})

unfoldable pub delete_route : (counter_has_dec : Bool) → (route_id : ℕ) → User → World → Reply World
unfolding require_network_owner
delete_route counter_has_dec route_id user w = do
  r ← found (route_of route_id w) 404
  n ← require_network_owner r.network_id user w.db
  after_dec counter_has_dec route_id r (log "route.delete" route_id w)

-- The approved exit routes of a device in a network.
abbrev pub is_exit_route : (exit_node_id network_id : ℕ) → AdvertisedRoute → Bool
is_exit_route x network r =
    r.device_id == x && r.is_exit_node && r.approved && r.enabled && r.network_id == network

abbrev pub is_default_route : (device_id : ℕ) → AdvertisedRoute → Bool
is_default_route k r = r.device_id == k && str_eq r.prefix "0.0.0.0/0"

abbrev pub check_exit : Option ℕ → (network_id : ℕ) → World → Reply (Unit {0})
check_exit none network w = ok tt
check_exit (some x) network w = do
  o ← one_or_none (keep (is_exit_route x network) w.db.routes)
  r ← found o 400
  ok tt

-- What the handler answers. Whether the response model RouteResponse takes Python's `None` is an
-- argument: where it does not, the library FastAPI raises.
abbrev pub respond : (takes_none : Bool) → Option AdvertisedRoute → World → Reply World
respond takes_none (some r) w = ok w
respond true none w = ok w
respond false none w = crash

abbrev pub is_own_device : (device_id : ℕ) → User → Device → Bool
is_own_device k user d = d.id == k && same_id d.user_id user.id

unfoldable pub select_exit_node :
    (takes_none : Bool) (device_id : ℕ) (exit_node_id : Option ℕ) → User → World → Reply World
select_exit_node takes_none device_id exit_node_id user w = do
  d ← found (find (is_own_device device_id user) w.db.devices) 404
  check_exit exit_node_id d.network_id w
  o ← one_or_none (keep (is_default_route device_id) w.db.routes)
  respond takes_none o (
      log "device.exit_node_select" device_id (record w {
        db = record w.db {
          devices =
              update_first (is_own_device device_id user)
                (λ d. record d { exit_node_id = exit_node_id }) w.db.devices;
        };
      }))
